-- ===== src/Session/Deferral/Tree.antt =====
-- src/main.rs: the deferred paths are whole subtrees below directories that nobody changes.
use file_local.Prelude.{◌≡◌, List, ◌⊎◌}
use file_local.Model.{Bytes}
use file_local.Session.Deferral.Parents.{IsBelow}

-- The path itself, or above it.
abbrev IsAtOrAbove : Bytes → Bytes → Type 0
IsAtOrAbove r p = (r ≡ p) ⊎ IsBelow p r
