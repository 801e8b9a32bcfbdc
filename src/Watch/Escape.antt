-- ===== src/Watch/Escape.antt =====
-- src/watch.rs: `BoundedError`. A text is the list of its code points.
use file_local.Prelude.{
  ℕ, zero, suc, ◌+◌, ◌-◌, ◌/◌, ◌%◌, ◌≤◌, ◌<◌, List, [], ◌∷◌, ◌++◌, ◌||◌, ◌&&◌, arith, ltb, leb,
  ◌==◌, if◌then◌else◌, length, take, length-take, All, All-append,
}

abbrev pub max_watch_error_chars : ℕ
max_watch_error_chars = 4096

hex_digit : ℕ → ℕ
hex_digit d = if ltb d 10 then b'0' + d else b'a' + (d - 10)

-- The hexadecimal digits in front of those that are there; six are enough for a code point.
hex_digits : ℕ → ℕ → List ℕ → List ℕ
hex_digits zero n digits = digits
hex_digits (suc fuel) n digits =
    let more = hex_digits fuel (n / 16) (hex_digit (n % 16) ∷ digits) in
    if n == 0 then digits else more

backslash : ℕ
backslash = 0x5c

unicode_digits : ℕ → List ℕ
unicode_digits c = if c == 0 then b'0' ∷ [] else hex_digits 6 c []

-- `char::escape_default`.
escape_char : ℕ → List ℕ
unfolding backslash
escape_char c =
    if c == 0x09
    then backslash ∷ b't' ∷ []
    else if c == 0x0d
    then backslash ∷ b'r' ∷ []
    else if c == 0x0a
    then backslash ∷ b'n' ∷ []
    else if c == 0x27 || c == 0x22 || c == 0x5c
    then backslash ∷ c ∷ []
    else if leb 0x20 c && leb c 0x7e
    then c ∷ []
    else backslash ∷ b'u' ∷ b'{' ∷ unicode_digits c ++ b'}' ∷ []

escape : List ℕ → List ℕ
escape [] = []
escape (c ∷ cs) = escape_char c ++ escape cs

-- `BoundedError::new`.
unfoldable pub bounded_error : List ℕ → List ℕ
unfolding escape escape_char unicode_digits hex_digits hex_digit backslash
bounded_error text = take max_watch_error_chars (escape text)

abbrev pub IsPrintable : ℕ → Type 0
IsPrintable c = (0x20 ≤ c) × (c ≤ 0x7e)

hex_digit-IsPrintable : (d : ℕ) → d < 16 → IsPrintable (hex_digit d)
unfolding hex_digit
hex_digit-IsPrintable d h = ground arith

hex_digits-IsPrintable :
    (fuel n : ℕ) (digits : List ℕ)
    → All IsPrintable digits
    → All IsPrintable (hex_digits fuel n digits)
unfolding hex_digits
hex_digits-IsPrintable zero n digits h = h
hex_digits-IsPrintable (suc fuel) n digits h = ground (
  arith,
  hex_digits-IsPrintable fuel (n / 16) (hex_digit (n % 16) ∷ digits)
      (hex_digit-IsPrintable (n % 16) (omega arith), h),
)

unicode_digits-IsPrintable : (c : ℕ) → All IsPrintable (unicode_digits c)
unfolding unicode_digits
unicode_digits-IsPrintable c = ground (arith, hex_digits-IsPrintable 6 c [] tt)

escape_char-IsPrintable : (c : ℕ) → All IsPrintable (escape_char c)
unfolding escape_char
escape_char-IsPrintable c = ground (
  arith,
  All-append IsPrintable (unicode_digits c) (b'}' ∷ []) (unicode_digits-IsPrintable c)
      (omega arith, tt),
)

escape-IsPrintable : (text : List ℕ) → All IsPrintable (escape text)
unfolding escape
escape-IsPrintable [] = tt
escape-IsPrintable (c ∷ cs) =
    All-append IsPrintable (escape_char c) (escape cs) (escape_char-IsPrintable c)
      (escape-IsPrintable cs)

take-All : (P : ℕ → Type 0) (n : ℕ) (xs : List ℕ) → All P xs → All P (take n xs)
take-All P zero xs h = tt
take-All P (suc n) [] h = tt
take-All P (suc n) (x ∷ xs) h = (h.0, take-All P n xs h.1)

-- A stored watch error is at most 4096 characters long, and every character of it is printable
-- ASCII, so it is one line.
pub bounded_error-IsPrintable :
    (text : List ℕ)
    → (length (bounded_error text) ≤ max_watch_error_chars) × All IsPrintable (bounded_error text)
unfolding bounded_error
bounded_error-IsPrintable text = (
  omega (arith, length-take max_watch_error_chars (escape text)),
  take-All IsPrintable max_watch_error_chars (escape text) (escape-IsPrintable text),
)
