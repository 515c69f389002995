-- ===== src/Tests/Monitors.antt =====
-- Samples of the monitor at concrete inputs.
use webspider.Prelude.{
  ℕ, suc, ◌-◌, ◌||◌, if◌then◌else◌, ◌≡◌, refl, arith, [], ◌∷◌, Option, some, none, Text, codes,
}
use webspider.Outcome.{Outcome, ok, raise, database_error, value_error}
use webspider.Str.{parse_int}
use webspider.Dedupe.{ℤ, pos}
use webspider.Monitor.{
  Sample, Delta, Backend, Loop, monitor_round, compute_by_source, empty_sample, count_of,
}
use webspider.Monitor.Deltas.{entries, names, compute_by_source-entries}
use webspider.Monitor.Returned.{Pooled, monitor_round-out}

abbrev earlier : Sample
earlier = record empty_sample {
  produced_by_source = (codes "a", 5) ∷ (codes "b", 7) ∷ [];
  stored_by_source = (codes "a", 2) ∷ [];
}

-- The counter of `b` was reset and `c` is new.
abbrev later : Sample
later = record empty_sample {
  produced_by_source = (codes "a", 9) ∷ (codes "b", 1) ∷ (codes "c", 3) ∷ [];
  stored_by_source = (codes "a", 4) ∷ [];
}

abbrev change : ℕ → ℕ → Delta
change p s = record { produced_delta = p; stored_delta = s; rejected_delta = some 0 }

deltas_run :
    compute_by_source (some earlier) later
    ≡ (codes "a", change 4 2) ∷ (codes "b", change 0 0) ∷ (codes "c", change 3 0) ∷ []
unfolding compute_by_source
deltas_run = refl

abbrev as_natural : Option ℤ → Outcome ℕ
as_natural (some (pos n)) = ok n
as_natural _ = raise value_error

abbrev int : Text → Outcome ℕ
int s = as_natural (parse_int s)

-- Redis without counters, and a database that refuses every INSERT; the world is the number of
-- connections that are out.
abbrev failing : Backend
failing = record {
  World = ℕ;
  xpending = λ n. (ok none, n);
  get = λ k n. (ok none, n);
  xlen = λ k n. (ok 0, n);
  hgetall = λ k n. (ok [], n);
  get_conn = λ n. (ok tt, suc n);
  put_conn = λ n. (ok tt, n - 1);
  insert = λ s d n. (raise database_error, n);
  prune = λ days n. (ok tt, n);
  commit = λ n. (ok tt, n);
  time = λ n. 100000;
}

failing-Pooled : Pooled failing (λ n. n)
failing-Pooled = record {
  given = λ w e. refl;
  refused = λ w x e. cc;
  returned = λ w n e. omega arith;
  xpending = record { at = λ w. refl };
  get = λ k. record { at = λ w. refl };
  xlen = λ k. record { at = λ w. refl };
  hgetall = λ k. record { at = λ w. refl };
  insert = λ s d. record { at = λ w. refl };
  prune = λ days. record { at = λ w. refl };
  commit = record { at = λ w. refl };
}

abbrev first_loop : Loop failing int (codes "s") (codes "d") 7
first_loop = record { prev = none; last_prune = 0 }

monitor_round-out_example : (monitor_round failing int (codes "s") (codes "d") 7 first_loop 3).1 ≡ 3
monitor_round-out_example =
    monitor_round-out failing-Pooled int (codes "s") (codes "d") 7 first_loop 3

compute_by_source-entries_example : entries (codes "a") (compute_by_source (some earlier) later) ≡ (
    if names earlier (codes "a") || names later (codes "a")
    then (record {
      produced_delta =
          count_of (codes "a") later.produced_by_source
          - count_of (codes "a") earlier.produced_by_source;
      stored_delta =
          count_of (codes "a") later.stored_by_source
          - count_of (codes "a") earlier.stored_by_source;
      rejected_delta = some (
          count_of (codes "a") later.rejected_by_source
          - count_of (codes "a") earlier.rejected_by_source);
    })
      ∷ []
    else [])
compute_by_source-entries_example = compute_by_source-entries earlier later (codes "a")
