-- ===== src/Bits/Step.antt =====
-- The lowest digit of `bit_xor` and of `bit_or`, and the order on which bit loops recur.
use Prim.Native.Nat.{max, differ, bit_xor, bit_or, digits, bit_xor-bitwise, bit_or-bitwise}
use mathlib.Core.WellFounded.{Acc, WellFounded}
use webspider.Prelude.{ℕ, zero, suc, ◌+◌, ◌-◌, ◌*◌, ◌/◌, ◌%◌, ◌≤◌, ◌<◌, ◌≡◌, refl, arith}

Acc-below : (k n : ℕ) → n < k → Acc ◌<◌ n
Acc-below zero n h = elim h [ ]
Acc-below (suc k) n h = Acc.intro n (λ m hm. Acc-below k m (omega arith))

unfoldable pub lt_wf : WellFounded ◌<◌
unfolding Acc-below
lt_wf = record { apply = λ n. Acc-below (suc n) n (omega arith) }

-- `bitwise` takes its first argument as fuel; any fuel that is not below it will do.
module _ (op : ℕ → ℕ → ℕ) where
  abbrev read : ℕ → ℕ → ℕ → ℕ
  read fuel x y = digits (λ rest. rest) op fuel x y

  enough_fuel : (x y j k : ℕ) → x ≤ j → x ≤ k → read j x y ≡ read k x y
  enough_fuel zero y zero zero le_j le_k = refl
  enough_fuel zero y zero (suc k) le_j le_k = refl
  enough_fuel zero y (suc j) zero le_j le_k = refl
  enough_fuel zero y (suc j) (suc k) le_j le_k = refl
  enough_fuel (suc x) y (suc j) (suc k) le_j le_k =
      let halves = enough_fuel (suc x / 2) (y / 2) j k (omega arith) (omega arith) in rw halves refl
  enough_fuel (suc x) y _ _ le_j le_k = absurd (omega arith)

  lowest_digit :
      (x y : ℕ)
      → read (suc x) (suc x) y ≡ read (suc x / 2) (suc x / 2) (y / 2) * 2 + op (suc x % 2) (y % 2)
  lowest_digit x y =
      let halves = enough_fuel (suc x / 2) (y / 2) x (suc x / 2) (omega arith) (omega arith) in
      omega (arith, halves)

pub bit_or_step : (x y : ℕ) → bit_or x y ≡ bit_or (x / 2) (y / 2) * 2 + max (x % 2) (y % 2)
bit_or_step zero y = simp bit_or-bitwise (omega arith)
bit_or_step (suc x) y = simp bit_or-bitwise (lowest_digit max x y)

pub bit_xor_step : (x y : ℕ) → bit_xor x y ≡ bit_xor (x / 2) (y / 2) * 2 + differ (x % 2) (y % 2)
bit_xor_step zero y = simp bit_xor-bitwise (omega arith)
bit_xor_step (suc x) y = simp bit_xor-bitwise (lowest_digit differ x y)

-- Two binary digits differ by one or not at all.
pub differ_digit : (a b : ℕ) → differ (a % 2) (b % 2) ≡ (a % 2 - b % 2) + (b % 2 - a % 2)
differ_digit a b = digit (a % 2) (b % 2) (omega arith) (omega arith)
  where
    digit : (x y : ℕ) → x < 2 → y < 2 → differ x y ≡ (x - y) + (y - x)
    digit zero y p q = omega arith
    digit (suc zero) zero p q = omega arith
    digit (suc zero) (suc zero) p q = omega arith
    digit _ _ p q = absurd (omega arith)
