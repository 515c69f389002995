-- ===== src/Bits/Diff.antt =====
-- The bits in which two numbers differ: `(a ^ b).bit_count()` as a recursion on the width, and how
-- it splits when the numbers are cut or shifted.
use Prim.Native.Nat.{bit_xor}
use mathlib.Core.WellFounded.{Acc}
use mathlib.Core.Logic.{dif_pos, dif_neg}
use mathlib.Core.Path.{subst}
use native.Mathlib.Bridge.{le_prop}
use native.Mathlib.Nat.{
  pow-suc, pow-succ', div-div-eq-div-mul, div-one, zero-add, suc-add, div-add-mod, mod-lt,
  mod-eq_of_lt, mul-add-mod_self_left, mul-mod_left, mul-div_left, one-le-pow,
}
use webspider.Prelude.{
  ℕ, zero, suc, ◌+◌, ◌-◌, ◌*◌, ◌/◌, ◌%◌, ◌^◌, ◌≤◌, ◌<◌, ◌≡◌, refl, sym, ap, ◌∙◌, arith, dec_lt,
}
use webspider.Bits.Step.{lt_wf, bit_xor_step, differ_digit}
use webspider.Bits.{bit_count_acc, bit_count}

-- The ones among the lowest `k` digits.
ones : ℕ → ℕ → ℕ
ones zero n = 0
ones (suc k) n = n % 2 + ones k (n / 2)

-- The positions below `k` at which the two numbers differ.
unfoldable pub diff : ℕ → ℕ → ℕ → ℕ
diff zero a b = 0
diff (suc k) a b = (a % 2 - b % 2) + (b % 2 - a % 2) + diff k (a / 2) (b / 2)

half-lt : (k n : ℕ) → n < 2 ^ suc k → n / 2 < 2 ^ k
half-lt k n h = omega (arith, pow-suc 2 k)

ones-zero : (k : ℕ) → ones k 0 ≡ 0
unfolding ones
ones-zero zero = refl
ones-zero (suc k) = omega (arith, ones-zero k)

bit_count_acc-ones : (k n : ℕ) (w : Acc ◌<◌ n) → n < 2 ^ k → bit_count_acc n w ≡ ones k n
unfolding bit_count_acc ones
bit_count_acc-ones zero n (Acc.intro _ smaller) h =
    let stop : ¬ (0 < n) = omega arith in rw (dif_neg _ stop)
bit_count_acc-ones (suc k) n (Acc.intro _ smaller) h = elim (dec_lt 0 n) [
  | yes p ↦
      rw (dif_pos _ le_prop p)
        (ap (λ t. n % 2 + t) (bit_count_acc-ones k (n / 2) (smaller (n / 2) _) (half-lt k n h)))
  | no p ↦
      let e : n ≡ 0 = omega arith in
      rw (dif_neg _ p) (sym (subst (λ t. ones (suc k) t ≡ 0) (sym e) (ones-zero (suc k))))
]

bit_xor-lt : (k a b : ℕ) → a < 2 ^ k → b < 2 ^ k → bit_xor a b < 2 ^ k
bit_xor-lt zero a b p q =
    let e : a ≡ 0 = omega arith in let e' : b ≡ 0 = omega arith in rw (e, e') (omega arith)
bit_xor-lt (suc k) a b p q = omega (
  arith,
  pow-suc 2 k,
  bit_xor_step a b,
  differ_digit a b,
  bit_xor-lt k (a / 2) (b / 2) (half-lt k a p) (half-lt k b q),
)

ones-bit_xor : (k a b : ℕ) → ones k (bit_xor a b) ≡ diff k a b
unfolding ones diff
ones-bit_xor zero a b = refl
ones-bit_xor (suc k) a b =
    let low : bit_xor a b % 2 ≡ (a % 2 - b % 2) + (b % 2 - a % 2) =
      omega (arith, bit_xor_step a b, differ_digit a b) in
    let high : bit_xor a b / 2 ≡ bit_xor (a / 2) (b / 2) =
      omega (arith, bit_xor_step a b, differ_digit a b) in
    rw (low, high, ones-bit_xor k (a / 2) (b / 2))

-- The population count of an exclusive or is the number of differing bits, at every width.
pub bit_count-bit_xor : (k a b : ℕ) → a < 2 ^ k → b < 2 ^ k → bit_count (bit_xor a b) ≡ diff k a b
unfolding bit_count
bit_count-bit_xor k a b p q =
    bit_count_acc-ones k (bit_xor a b) (lt_wf.apply _) (bit_xor-lt k a b p q) ∙ ones-bit_xor k a b

-- The low `s` bits and the `w` bits above them.
pub diff-add : (s w a b : ℕ) → diff (s + w) a b ≡ diff s a b + diff w (a / 2 ^ s) (b / 2 ^ s)
unfolding diff
diff-add zero w a b = rw (zero-add w, div-one a, div-one b, zero-add)
diff-add (suc s) w a b = rw (suc-add s w, diff-add s w (a / 2) (b / 2), cut a, cut b) (omega arith)
  where
    cut : (x : ℕ) → x / 2 / 2 ^ s ≡ x / 2 ^ suc s
    cut x = div-div-eq-div-mul x 2 (2 ^ s) ∙ ap (λ t. x / t) (sym (pow-succ' 2 s))

pub diff-le : (s a b : ℕ) → diff s a b ≤ s
unfolding diff
diff-le zero a b = omega arith
diff-le (suc s) a b = omega (arith, diff-le s (a / 2) (b / 2))

pub diff_self : (s a : ℕ) → diff s a a ≡ 0
unfolding diff
diff_self zero a = refl
diff_self (suc s) a = omega (arith, diff_self s (a / 2))

-- Numbers of `w` bits that differ nowhere are equal.
pub eq_of_diff-zero : (w a b : ℕ) → a < 2 ^ w → b < 2 ^ w → diff w a b ≡ 0 → a ≡ b
unfolding diff
eq_of_diff-zero zero a b p q h = omega arith
eq_of_diff-zero (suc w) a b p q h =
    omega (arith, eq_of_diff-zero w (a / 2) (b / 2) (half-lt w a p) (half-lt w b q) (omega arith))

-- A number by its lowest `s + 1` bits.
cut_low : (s a : ℕ) → a ≡ 2 * (2 ^ s * (a / 2 ^ suc s)) + a % 2 ^ suc s
cut_low s a =
    omega (arith, div-add-mod a (2 ^ suc s), ap (λ t. t * (a / 2 ^ suc s)) (pow-succ' 2 s))

mod-div-two : (s a : ℕ) → a % 2 ^ suc s / 2 ≡ a / 2 % 2 ^ s
mod-div-two s a =
    let r = a % 2 ^ suc s in
    let q = a / 2 ^ suc s in
    let half : a / 2 ≡ 2 ^ s * q + r / 2 = omega (arith, cut_low s a) in
    let small : r < 2 ^ suc s = mod-lt a (omega (arith, one-le-pow (suc s) 2)) in
    sym (rw half (mul-add-mod_self_left (2 ^ s) q (r / 2) ∙ mod-eq_of_lt (half-lt s r small)))

-- Only the low bits count.
pub diff-mod : (s a b : ℕ) → diff s (a % 2 ^ s) (b % 2 ^ s) ≡ diff s a b
unfolding diff
diff-mod zero a b = refl
diff-mod (suc s) a b =
    let low : a % 2 ^ suc s % 2 ≡ a % 2 = omega (arith, cut_low s a) in
    let low' : b % 2 ^ suc s % 2 ≡ b % 2 = omega (arith, cut_low s b) in
    rw (low, low', mod-div-two s a, mod-div-two s b, diff-mod s (a / 2) (b / 2))

-- Shifting both numbers up adds no difference.
pub diff-shift : (w s a b : ℕ) → diff (w + s) (a * 2 ^ w) (b * 2 ^ w) ≡ diff s a b
diff-shift w s a b = rw (
  diff-add w s,
  up a,
  up b,
  ← diff-mod w (a * 2 ^ w) (b * 2 ^ w),
  mul-mod_left a,
  mul-mod_left b,
  diff_self w 0,
  zero-add,
)
  where
    up : (x : ℕ) → x * 2 ^ w / 2 ^ w ≡ x
    up x = mul-div_left x (omega (arith, one-le-pow w 2))
