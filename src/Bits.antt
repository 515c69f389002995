-- ===== src/Bits.antt =====
-- Bits of natural numbers: Python's `int.bit_count` and `^`, against a count of differing bits.
pub mod Step
pub mod Diff
use Step.{lt_wf}
use mathlib.Core.Logic.{dite}
use mathlib.Core.WellFounded.{Acc}
use webspider.Prelude.{ℕ, ◌+◌, ◌/◌, ◌%◌, ◌<◌, arith, dec_lt}

bit_count_acc : (n : ℕ) → Acc ◌<◌ n → ℕ
bit_count_acc n (Acc.intro _ smaller) =
    dite (dec_lt 0 n) (λ h. n % 2 + bit_count_acc (n / 2) (smaller (n / 2) (omega arith))) (λ _. 0)

-- `n.bit_count()` of a natural number: the binary digits that are 1.
unfoldable pub bit_count : ℕ → ℕ
unfolding bit_count_acc lt_wf dec_lt
bit_count n = bit_count_acc n (lt_wf.apply n)
