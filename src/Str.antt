-- ===== src/Str.antt =====
-- What the processor uses of Python's `str`: white space, `strip`, the decimal form of an integer
-- and `int(text)`.
pub mod RoundTrip
use mathlib.Core.Logic.{dite}
use mathlib.Core.List.{reverse}
use mathlib.Core.WellFounded.{Acc}
use webspider.Prelude.{
  ℕ, ◌+◌, ◌-◌, ◌*◌, ◌/◌, ◌%◌, ◌<◌, arith, dec_lt, Bool, true, false, ◌&&◌, ◌||◌, List, [], ◌∷◌,
  ◌++◌, Option, none, some, Text, leb, ◌==◌, if◌then◌else◌,
}
use webspider.Bits.Step.{lt_wf}
use webspider.Dedupe.{ℤ, pos, negsuc}

-- `c.isspace()`
unfoldable pub is_space : ℕ → Bool
is_space c =
    (leb 9 c && leb c 13)
    || (leb 28 c && leb c 32)
    || c == 133
    || c == 160
    || c == 5760
    || (leb 8192 c && leb c 8202)
    || c == 8232
    || c == 8233
    || c == 8239
    || c == 8287
    || c == 12288

unfoldable pub lstrip : Text → Text
unfolding is_space
lstrip [] = []
lstrip (c ∷ s) = if is_space c then lstrip s else c ∷ s

unfoldable pub strip : Text → Text
unfolding lstrip
strip s = reverse (lstrip (reverse (lstrip s)))

unfoldable pub is_digit : ℕ → Bool
is_digit c = leb 48 c && leb c 57

decimal_acc : (n : ℕ) → Acc ◌<◌ n → Text
decimal_acc n (Acc.intro _ smaller) =
    dite (dec_lt 9 n)
      (λ h. decimal_acc (n / 10) (smaller (n / 10) (omega arith)) ++ (48 + n % 10) ∷ [])
      (λ _. (48 + n) ∷ [])

-- `str(n)` of a natural number.
unfoldable pub decimal : ℕ → Text
unfolding decimal_acc lt_wf dec_lt
decimal n = decimal_acc n (lt_wf.apply n)

-- Decimal digits, with single underscores between them; `d` says that a digit was just read.
unfoldable pub read_digits : ℕ → Bool → Text → Option ℕ
unfolding is_digit
read_digits v d [] = if d then some v else none
read_digits v d (c ∷ s) = elim (is_digit c) [
  | true ↦ read_digits (v * 10 + (c - 48)) true s
  | false ↦ elim (c == b'_' && d) [ true ↦ read_digits v false s | false ↦ none ]
]

abbrev pub negate : ℕ → ℤ
negate n = if n == 0 then pos 0 else negsuc (n - 1)

abbrev map_int : (ℕ → ℤ) → Option ℕ → Option ℤ
map_int f none = none
map_int f (some n) = some (f n)

-- The sign and the digits.
unfoldable pub read_signed : Text → Option ℤ
unfolding read_digits
read_signed [] = none
read_signed (c ∷ s) =
    if c == b'-'
    then map_int negate (read_digits 0 false s)
    else if c == b'+'
    then map_int pos (read_digits 0 false s)
    else map_int pos (read_digits 0 false (c ∷ s))

-- `int(text)`; `none` is a ValueError. Of the digits only the ASCII ones are read.
unfoldable pub parse_int : Text → Option ℤ
unfolding read_signed strip
parse_int s = read_signed (strip s)
