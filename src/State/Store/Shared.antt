-- ===== src/State/Store/Shared.antt =====
-- src/sync.rs and src/state.rs: the connector computes the heads that the two peers of a round have
-- in common; both acknowledge them, and end with the same shared heads.
use file_local.Prelude.{Option, none, some}
use file_local.Model.{BaseVersion, Record, as_base}

-- The base of a head.
abbrev pub head_base : Option Record → Option BaseVersion
head_base none = none
head_base (some r) = as_base r.version
