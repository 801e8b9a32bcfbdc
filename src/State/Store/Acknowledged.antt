-- ===== src/State/Store/Acknowledged.antt =====
-- src/state.rs: the shared heads after `acknowledge_shared_heads`.
use file_local.Prelude.{◌≡◌, Option, none, some, List, ◌||◌, any, if◌then◌else◌}
use file_local.Model.{BaseVersion, Bytes, Record, as_base}
use file_local.Sync.Materialize.{is_path}
use file_local.Sync.Heads.{is_current}
use file_local.State.Store.{Rows, stored}
use file_local.State.Store.Rows.{IsSerde, has_value, or_else}

-- The base that an acknowledged record becomes: a file that is still the current record.
abbrev pub base_of : List Record → Option Record → Option BaseVersion
base_of current none = none
base_of current (some r) = if is_current current r then as_base r.version else none

-- serde_json writes the base, if there is one, and reads it again.
abbrev pub IsWritten :
    (BaseVersion → Option Bytes) → (Bytes → Option BaseVersion) → Option BaseVersion → Type 0
IsWritten encode decode none = Unit {0}
IsWritten encode decode (some base) = IsSerde encode decode base

module _ (encode : BaseVersion → Option Bytes) (decode : Bytes → Option BaseVersion)
    (current : List Record) where
  -- What the loop adds.
  abbrev Adds : List Bytes × Rows → (Bytes → Option BaseVersion) → List Bytes × Rows → Type 0
  Adds (ms, rows) f (ms', rows') =
      (q : Bytes)
      → (any (is_path q) ms' ≡ (any (is_path q) ms || has_value (f q)))
        × (stored decode q rows' ≡ or_else (f q) (stored decode q rows))
