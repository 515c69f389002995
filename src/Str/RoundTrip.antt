-- ===== src/Str/RoundTrip.antt =====
-- `int(str(n))` is `n`.
use mathlib.Core.Logic.{dif_pos, dif_neg}
use mathlib.Core.List.{reverse, reverse-append, reverse-reverse}
use mathlib.Core.WellFounded.{Acc}
use native.Mathlib.Bridge.{le_prop}
use webspider.Prelude.{
  ℕ, ◌+◌, ◌-◌, ◌*◌, ◌/◌, ◌%◌, ◌<◌, ◌≡◌, refl, ap, ◌∙◌, arith, dec_lt, Bool, true, false, [], ◌∷◌,
  ◌++◌, some, Text, All, All-append,
}
use webspider.Bits.Step.{lt_wf}
use webspider.Dedupe.{pos}
use webspider.Str.{
  lstrip, strip, is_digit, decimal_acc, decimal, read_digits, read_signed, parse_int,
}

abbrev AreDigits : Text → Type 0
AreDigits = All (λ c. is_digit c ≡ true)

digit-is_digit : (d : ℕ) → d < 10 → is_digit (48 + d) ≡ true
unfolding is_digit
digit-is_digit d h = ground arith

-- Digits read after a digit add up as decimal places.
read_digits-append :
    (v u : ℕ) (d : Bool) (xs : Text) (y : ℕ)
    → AreDigits xs
    → y < 10
    → read_digits v d xs ≡ some u
    → read_digits v d (xs ++ (48 + y) ∷ []) ≡ some (u * 10 + y)
unfolding read_digits
read_digits-append v u d [] y a h e = ground arith
read_digits-append v u d (x ∷ xs) y a h e =
    ground (arith, a.0, read_digits-append (v * 10 + (x - 48)) u true xs y a.1 h)

decimal_acc_digits : (n : ℕ) (w : Acc ◌<◌ n) → AreDigits (decimal_acc n w)
unfolding decimal_acc
decimal_acc_digits n (Acc.intro _ smaller) = elim (dec_lt 9 n) [
  | yes h ↦ rw (dif_pos _ le_prop h) (
      All-append (λ c. is_digit c ≡ true) _ _ (decimal_acc_digits (n / 10) (smaller (n / 10) _))
        (digit-is_digit (n % 10) (omega arith), tt))
  | no h ↦ rw (dif_neg _ h) (digit-is_digit n (omega arith), tt)
]

one_digit : (n : ℕ) → n < 10 → read_digits 0 false ((48 + n) ∷ []) ≡ some n
unfolding read_digits
one_digit n h = ground arith

read_digits-decimal_acc : (n : ℕ) (w : Acc ◌<◌ n) → read_digits 0 false (decimal_acc n w) ≡ some n
unfolding decimal_acc
read_digits-decimal_acc n (Acc.intro _ smaller) = elim (dec_lt 9 n) [
  | yes h ↦ rw (dif_pos _ le_prop h) (
      read_digits-append 0 (n / 10) false (decimal_acc (n / 10) (smaller (n / 10) _)) (n % 10)
        (decimal_acc_digits (n / 10) (smaller (n / 10) _)) (omega arith)
        (read_digits-decimal_acc (n / 10) (smaller (n / 10) _))
      ∙ ap some (omega arith))
  | no h ↦ rw (dif_neg _ h) (one_digit n (omega arith))
]

lstrip_digits : (s : Text) → AreDigits s → lstrip s ≡ s
unfolding lstrip is_digit
lstrip_digits [] a = refl
lstrip_digits (c ∷ s) a = ground (arith, a.0)

AreDigits-reverse : (s : Text) → AreDigits s → AreDigits (reverse s)
AreDigits-reverse [] a = tt
AreDigits-reverse (c ∷ s) a =
    rw (reverse-append (c ∷ []) s)
      (All-append (λ c. is_digit c ≡ true) (reverse s) (c ∷ []) (AreDigits-reverse s a.1) (a.0, tt))

strip_digits : (s : Text) → AreDigits s → strip s ≡ s
unfolding strip
strip_digits s a =
    rw (lstrip_digits s a, lstrip_digits (reverse s) (AreDigits-reverse s a), reverse-reverse s)

read_signed_digits :
    (s : Text) (n : ℕ) → AreDigits s → read_digits 0 false s ≡ some n → read_signed s ≡ some (pos n)
unfolding read_signed is_digit
read_signed_digits [] n a e = unfold read_digits in cc
read_signed_digits (c ∷ s) n a e = ground (arith, a.0)

-- Reading the decimal form of a natural number gives the number back.
pub parse_int-decimal : (n : ℕ) → parse_int (decimal n) ≡ some (pos n)
unfolding parse_int decimal
parse_int-decimal n =
    let w = lt_wf.apply n in
    let a = decimal_acc_digits n w in
    rw (strip_digits (decimal_acc n w) a)
      (read_signed_digits (decimal_acc n w) n a (read_digits-decimal_acc n w))
