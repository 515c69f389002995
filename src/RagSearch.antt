-- ===== src/RagSearch.antt =====
-- py-processor/dashboard/rag_search.py: `_throttle`, the gate in front of the semantic search.
pub mod Spacing
pub mod Search
use webspider.Prelude.{ℕ, ◌+◌, ◌-◌, Bool, true, false, List, [], ◌∷◌, ltb, if◌then◌else◌}

-- The new value of `_next_ok[0]`, or a RateLimited error with the time to wait.
pub data Gate : Type 0 where
  allowed : ℕ → Gate
  limited : ℕ → Gate

-- `_throttle` at the time `now`, where `period` is `1.0 / RAG_QPS`: the wait is
-- `period - (now - next_ok)`, and the query is limited where it is positive.
unfoldable pub throttle : ℕ → ℕ → ℕ → Gate
throttle period next_ok now =
    if ltb now (next_ok + period) then limited (next_ok + period - now) else allowed (now + period)

-- The times of the queries that pass the gate, of those that come at the given times.
unfoldable pub passed : ℕ → ℕ → List ℕ → List ℕ
unfolding throttle
passed period next_ok [] = []
passed period next_ok (now ∷ times) = elim (throttle period next_ok now) [
  | allowed next ↦ now ∷ passed period next times
  | limited wait ↦ passed period next_ok times
]
