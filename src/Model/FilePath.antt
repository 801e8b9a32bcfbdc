-- ===== src/Model/FilePath.antt =====
-- src/model.rs: `RelativePath::from_bytes`, over the components that std's `Path` iterates on Unix
-- and the `PathBuf` that the loop pushes them onto.
use file_local.Prelude.{
  ℕ, Bool, true, false, List, [], ◌∷◌, ◌++◌, ◌||◌, ◌&&◌, ◌==◌, if◌then◌else◌, any, is_empty, holds,
}
use file_local.Prelude.Results.{Result, ok, err, ◌>>=◌}
use file_local.Model.{Bytes, Bytes-discrete}

abbrev pub slash : ℕ
slash = b'/'

cons_head : ℕ → List Bytes → List Bytes
cons_head c [] = (c ∷ []) ∷ []
cons_head c (p ∷ ps) = (c ∷ p) ∷ ps

-- The pieces of a path between its slashes.
unfoldable pub split : Bytes → List Bytes
unfolding cons_head
split [] = [] ∷ []
split (c ∷ cs) = let rest = split cs in if c == slash then [] ∷ rest else cons_head c rest

-- `std::path::Component`.
pub data Component : Type 0 where
  root_dir cur_dir parent_dir : Component
  normal : Bytes → Component

abbrev pub eq_bytes : Bytes → Bytes → Bool
unfolding Bytes-discrete
eq_bytes a b = holds (Bytes-discrete a b)

abbrev pub dot : Bytes
dot = b'.' ∷ []

abbrev pub dot_dot : Bytes
dot_dot = b'.' ∷ b'.' ∷ []

abbrev pub dot_git : Bytes
dot_git = b'.' ∷ b'g' ∷ b'i' ∷ b't' ∷ []

-- `.flocal-tmp-`
abbrev pub temp_prefix : Bytes
temp_prefix = b'.' ∷ b'f' ∷ b'l' ∷ b'o' ∷ b'c' ∷ b'a' ∷ b'l' ∷ b'-' ∷ b't' ∷ b'm' ∷ b'p' ∷ b'-' ∷ []

unfoldable pub starts_with : Bytes → Bytes → Bool
starts_with s [] = true
starts_with [] (p ∷ ps) = false
starts_with (c ∷ cs) (p ∷ ps) = c == p && starts_with cs ps

-- What `components()` makes of a piece: an empty piece and a `.` are skipped.
unfoldable pub component : Bytes → List Component
component p =
    if is_empty p || eq_bytes p dot
    then []
    else if eq_bytes p dot_dot
    then parent_dir ∷ []
    else normal p ∷ []

unfoldable pub body : List Bytes → List Component
unfolding component
body [] = []
body (p ∷ ps) = component p ++ body ps

-- A leading slash is the root; a leading `.` of a relative path is kept.
leading : Bytes → List Bytes → List Component
leading (c ∷ cs) pieces = if c == slash then root_dir ∷ [] else leading_dot pieces
  where
    leading_dot : List Bytes → List Component
    leading_dot [] = []
    leading_dot (p ∷ ps) = if eq_bytes p dot then cur_dir ∷ [] else []
leading [] pieces = []

-- `Path::components`.
unfoldable pub components : Bytes → List Component
unfolding leading body split
components bytes = leading bytes (split bytes) ++ body (split bytes)

pub data PathError : Type 0 where
  empty_or_nul reserved not_relative not_canonical : PathError

unfoldable pub ends_with_slash : Bytes → Bool
ends_with_slash [] = false
ends_with_slash (c ∷ []) = c == slash
ends_with_slash (c ∷ d ∷ cs) = ends_with_slash (d ∷ cs)

-- `PathBuf::push` of a relative name.
unfoldable pub push : Bytes → Bytes → Bytes
unfolding ends_with_slash
push path name =
    if is_empty path || ends_with_slash path then path ++ name else path ++ slash ∷ name

unfoldable pub is_reserved : Bytes → Bool
unfolding starts_with
is_reserved name = eq_bytes name dot_git || starts_with name temp_prefix

-- The loop of `from_bytes`.
unfoldable pub normalize : Bytes → List Component → Result Bytes PathError
unfolding push is_reserved
normalize path [] = ok path
normalize path (normal name ∷ cs) =
    let rest = normalize (push path name) cs in if is_reserved name then err reserved else rest
normalize path (root_dir ∷ cs) = err not_relative
normalize path (cur_dir ∷ cs) = err not_relative
normalize path (parent_dir ∷ cs) = err not_relative

-- `RelativePath::from_bytes`.
unfoldable pub from_bytes : Bytes → Result Bytes PathError
unfolding components normalize
from_bytes bytes = if is_empty bytes || any (λ b. b == 0) bytes then err empty_or_nul else do
  normalized ← normalize [] (components bytes)
  if eq_bytes normalized bytes then ok bytes else err not_canonical
