-- ===== src/Merge/Text.antt =====
-- src/merge.rs: `lines`, and the test that std's `str::from_utf8` makes.
use file_local.Prelude.{
  ℕ, Bool, true, false, Option, none, some, List, [], ◌∷◌, ◌++◌, ◌&&◌, ltb, leb, ◌==◌,
  if◌then◌else◌, is_empty,
}
use file_local.Model.{Bytes}

abbrev pub newline : ℕ
newline = 0x0a

-- `lines`; `line` holds the bytes from `start` to the present index.
unfoldable pub lines_loop : Bytes → Bytes → List Bytes
lines_loop line [] = if is_empty line then [] else line ∷ []
lines_loop line (c ∷ cs) =
    let rest = lines_loop (if c == newline then [] else line ++ c ∷ []) cs in
    if c == newline then (line ++ c ∷ []) ∷ rest else rest

unfoldable pub lines : Bytes → List Bytes
unfolding lines_loop
lines bytes = lines_loop [] bytes

abbrev continuation : ℕ × ℕ
continuation = (0x80, 0xbf)

-- The ranges of the bytes that must follow a first byte of UTF-8.
expected : ℕ → Option (List (ℕ × ℕ))
expected c =
    if ltb c 0x80
    then some []
    else if ltb c 0xc2
    then none
    else if ltb c 0xe0
    then some (continuation ∷ [])
    else if c == 0xe0
    then some ((0xa0, 0xbf) ∷ continuation ∷ [])
    else if c == 0xed
    then some ((0x80, 0x9f) ∷ continuation ∷ [])
    else if ltb c 0xf0
    then some (continuation ∷ continuation ∷ [])
    else if c == 0xf0
    then some ((0x90, 0xbf) ∷ continuation ∷ continuation ∷ [])
    else if ltb c 0xf4
    then some (continuation ∷ continuation ∷ continuation ∷ [])
    else if c == 0xf4
    then some ((0x80, 0x8f) ∷ continuation ∷ continuation ∷ [])
    else none

utf8_from : List (ℕ × ℕ) → Bytes → Bool
utf8_from [] [] = true
utf8_from (range ∷ more) [] = false
utf8_from ((lo, hi) ∷ more) (c ∷ cs) = let rest = utf8_from more cs in leb lo c && leb c hi && rest
utf8_from [] (c ∷ cs) = elim (expected c) [ none ↦ false | some more ↦ utf8_from more cs ]

unfoldable pub is_utf8 : Bytes → Bool
unfolding utf8_from expected
is_utf8 bytes = utf8_from [] bytes
