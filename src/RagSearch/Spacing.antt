-- ===== src/RagSearch/Spacing.antt =====
-- How far apart the gate keeps the queries.
use mathlib.Core.Path.{subst}
use webspider.Prelude.{ℕ, ◌+◌, ◌≤◌, ◌≡◌, refl, sym, arith, List, [], ◌∷◌}
use webspider.RagSearch.{Gate, allowed, limited, throttle, passed}

-- The first time is at least `low`, and each next one at least `distance` after the one before.
abbrev pub Spaced : ℕ → ℕ → List ℕ → Type 0
Spaced distance low [] = Unit
Spaced distance low (now ∷ times) = (low ≤ now) × Spaced distance (now + distance) times

-- A query that passes does so one period after `_next_ok[0]`, and sets it to one period later.
throttle-allowed :
    (period next_ok now next : ℕ)
    → throttle period next_ok now ≡ allowed next
    → (next_ok + period ≤ now) × (next ≡ now + period)
unfolding throttle
throttle-allowed period next_ok now next e = ground arith

-- The queries that pass the gate are at least two periods apart, twice the 1/RAG_QPS that the code
-- announces, and the first is at least one period after `_next_ok[0]`; whatever the times at which
-- queries come.
pub passed-Spaced :
    (period next_ok : ℕ) (times : List ℕ)
    → Spaced (period + period) (next_ok + period) (passed period next_ok times)
unfolding passed
passed-Spaced period next_ok [] = tt
passed-Spaced period next_ok (now ∷ times) =
    by_gate (passed-Spaced period (now + period) times) (passed-Spaced period next_ok times)
      (throttle period next_ok now) refl
  where
    by_gate :
        Spaced (period + period) (now + period + period) (passed period (now + period) times)
        → Spaced (period + period) (next_ok + period) (passed period next_ok times)
        → (g : Gate) → throttle period next_ok now ≡ g
        → Spaced (period + period) (next_ok + period) (elim g [
          | allowed next ↦ now ∷ passed period next times
          | limited wait ↦ passed period next_ok times
        ])
    by_gate ih ih' (allowed next) e =
        let (late, same) = throttle-allowed period next_ok now next e in
        let low : now + period + period ≡ now + (period + period) = omega arith in
        (
          late,
          subst (λ (l : ℕ). Spaced (period + period) l (passed period next times)) low
              (subst
                (λ (n : ℕ).
                  Spaced (period + period) (now + period + period) (passed period n times))
                (sym same) ih),
        )
    by_gate ih ih' (limited wait) e = ih'
