-- ===== src/Monitor.antt =====
-- py-processor/monitor.py: the counters read from Redis, their changes per source, and the snapshot
-- that is written. The time of a sample (`taken_at`), which nothing reads, and the sleeps are left
-- out.
pub mod Deltas
pub mod Returned
use webspider.Prelude.{
  ℕ, ◌-◌, ◌*◌, Bool, true, false, List, [], ◌∷◌, ◌++◌, map, Option, none, some, Text, codes,
  text_eq, text_elem, ltb, if◌then◌else◌,
}
use webspider.Outcome.{Outcome, ok, raise, value_error}
use webspider.Action.{Action, pure, lift, ◌>>=◌, ◌>>◌, finally}
use webspider.Pipeline.Counts.{Counts}

-- `read_state`: what a sample holds.
pub record Sample : Type 0 where
  pub produced : ℕ
  pub stored : ℕ
  pub rejected : ℕ
  pub pending : ℕ
  pub dlq : ℕ
  pub stream_len : ℕ
  pub produced_by_source : Counts
  pub stored_by_source : Counts
  pub rejected_by_source : Counts

-- A value of `by_source`; only the snapshots made by `compute_by_source` have the third.
pub record Delta : Type 0 where
  pub produced_delta : ℕ
  pub stored_delta : ℕ
  pub rejected_delta : Option ℕ

-- Redis, the connection pool and the database behind the monitor.
pub record Backend : Type 1 where
  pub World : Type 0
  -- XPENDING: the `pending` of its answer, where that is a dictionary that has it
  pub xpending : Action World (Option ℕ)
  pub get : Text → Action World (Option Text)
  pub xlen : Text → Action World ℕ
  pub hgetall : Text → Action World (List (Text × Text))
  pub get_conn : Action World (Unit {0})
  pub put_conn : Action World (Unit {0})
  pub insert : Sample → List (Text × Delta) → Action World (Unit {0})
  pub prune : ℕ → Action World (Unit {0})
  pub commit : Action World (Unit {0})
  -- `time.time()` in seconds
  pub time : World → ℕ

-- `d.get(k, 0)`
unfoldable pub count_of : Text → Counts → ℕ
count_of k [] = 0
count_of k ((j, n) ∷ d) = if text_eq k j then n else count_of k d

-- The union of sets, without repetition.
unfoldable pub insert_all : List Text → List Text → List Text
unfolding text_elem
insert_all [] set = set
insert_all (k ∷ ks) set = insert_all ks (if text_elem k set then set else set ++ k ∷ [])

unfoldable pub keys : Counts → List Text
keys [] = []
keys ((k, n) ∷ d) = k ∷ keys d

abbrev pub empty_sample : Sample
empty_sample = record {
  produced = 0;
  stored = 0;
  rejected = 0;
  pending = 0;
  dlq = 0;
  stream_len = 0;
  produced_by_source = [];
  stored_by_source = [];
  rejected_by_source = [];
}

-- The sources of either sample.
unfoldable pub sources_of : Sample → Sample → List Text
unfolding insert_all keys
sources_of prev cur = insert_all (keys prev.produced_by_source) (
    insert_all (keys cur.produced_by_source) (
      insert_all (keys prev.stored_by_source) (
        insert_all (keys cur.stored_by_source) (
          insert_all (keys prev.rejected_by_source)
            (insert_all (keys cur.rejected_by_source) [])))))

-- `max(0, cur - prev)`
unfoldable pub delta : Text → Counts → Counts → ℕ
unfolding count_of
delta src prev cur = count_of src cur - count_of src prev

unfoldable pub delta_of : Sample → Sample → Text → Delta
unfolding delta
delta_of prev cur src = record {
  produced_delta = delta src prev.produced_by_source cur.produced_by_source;
  stored_delta = delta src prev.stored_by_source cur.stored_by_source;
  rejected_delta = some (delta src prev.rejected_by_source cur.rejected_by_source);
}

abbrev pub zero_delta : Delta
zero_delta = record { produced_delta = 0; stored_delta = 0; rejected_delta = some 0 }

unfoldable pub tabulate : (Text → Delta) → List Text → List (Text × Delta)
tabulate f [] = []
tabulate f (src ∷ sources) = (src, f src) ∷ tabulate f sources

-- `compute_by_source(prev, cur)`
unfoldable pub compute_by_source : Option Sample → Sample → List (Text × Delta)
unfolding tabulate sources_of delta_of
compute_by_source none cur = tabulate (λ _. zero_delta) (sources_of empty_sample cur)
compute_by_source (some prev) cur = tabulate (delta_of prev cur) (sources_of prev cur)

-- The first sample's own dictionary in `snapshot_once`.
unfoldable pub first_by_source : Sample → List (Text × Delta)
unfolding tabulate insert_all keys
first_by_source cur =
    tabulate (λ _. record { produced_delta = 0; stored_delta = 0; rejected_delta = none })
      (insert_all (keys cur.produced_by_source) (insert_all (keys cur.stored_by_source) []))

unfoldable pub by_source_of : Option Sample → Sample → List (Text × Delta)
unfolding compute_by_source first_by_source
by_source_of none cur = first_by_source cur
by_source_of (some prev) cur = compute_by_source (some prev) cur

-- `int(r.get(k) or 0)`; `int` is of a counter, which does not go below zero.
module _ (int : Text → Outcome ℕ) where
  unfoldable pub int_or_zero : Option Text → Outcome ℕ
  int_or_zero none = ok 0
  int_or_zero (some []) = ok 0
  int_or_zero (some (c ∷ v)) = int (c ∷ v)

  unfoldable pub put_int : Text → Outcome Counts → Outcome ℕ → Outcome Counts
  put_int k (raise e) (ok n) = raise e
  put_int k (ok d) (ok n) = ok ((k, n) ∷ d)
  put_int k d (raise e) = raise e

  -- `{k: int(v) for k, v in d.items()}`
  unfoldable pub int_values : List (Text × Text) → Outcome Counts
  unfolding put_int
  int_values [] = ok []
  int_values ((k, v) ∷ d) = put_int k (int_values d) (int v)

unfoldable pub pending_of : Option ℕ → ℕ
pending_of none = 0
pending_of (some n) = n

module _ (bk : Backend) (int : Text → Outcome ℕ) (stream dlq_stream : Text)
    (retention_days : ℕ) where
  unfoldable pub counter : Text → Action bk.World ℕ
  unfolding int_or_zero
  counter k = do v ← bk.get k; lift (int_or_zero int v)

  unfoldable pub counters : Text → Action bk.World Counts
  unfolding int_values
  counters k = do d ← bk.hgetall k; lift (int_values int d)

  -- `read_state(r)`
  unfoldable pub read_state : Action bk.World Sample
  unfolding counter counters pending_of
  read_state = do
    pend ← bk.xpending
    produced ← counter (codes "metrics:articles:produced")
    stored ← counter (codes "metrics:articles:stored")
    rejected ← counter (codes "metrics:articles:rejected")
    dlq ← bk.xlen dlq_stream
    stream_len ← bk.xlen stream
    produced_by_source ← counters (codes "metrics:articles:produced_by_source")
    stored_by_source ← counters (codes "metrics:articles:stored_by_source")
    rejected_by_source ← counters (codes "metrics:articles:rejected_by_source")
    pure (record {
      produced = produced;
      stored = stored;
      rejected = rejected;
      pending = pending_of pend;
      dlq = dlq;
      stream_len = stream_len;
      produced_by_source = produced_by_source;
      stored_by_source = stored_by_source;
      rejected_by_source = rejected_by_source;
    })

  -- The connection is returned whether the INSERT raises or not.
  unfoldable pub save : Sample → List (Text × Delta) → Action bk.World (Unit {0})
  save cur by_source = do bk.get_conn; finally (do bk.insert cur by_source; bk.commit) bk.put_conn

  -- `snapshot_once(r, prev)`
  unfoldable pub snapshot_once : Option Sample → Action bk.World Sample
  unfolding read_state by_source_of save
  snapshot_once prev = do cur ← read_state; save cur (by_source_of prev cur); pure cur

  -- `prune_old()`, as `main` calls it, without a connection.
  unfoldable pub prune_old : Action bk.World (Unit {0})
  prune_old = do bk.get_conn; finally (do bk.prune retention_days; bk.commit) bk.put_conn

  -- The state of the loop in `main`.
  pub record Loop : Type 0 where
    pub prev : Option Sample
    pub last_prune : ℕ

  -- The call of `prune_old` where it is due, and the next state. A failure leaves `last_prune`.
  unfoldable pub after_prune : Sample → ℕ → ℕ → Outcome (Unit {0}) → Loop
  after_prune cur last_prune now (ok t) = record { prev = some cur; last_prune = now }
  after_prune cur last_prune now (raise e) = record { prev = none; last_prune = last_prune }

  unfoldable pub prune_due : Bool → Sample → Loop → bk.World → Loop × bk.World
  unfolding prune_old after_prune
  prune_due false cur l w = (record l { prev = some cur }, w)
  prune_due true cur l w =
      let (o, w') = prune_old w in (after_prune cur l.last_prune (bk.time w') o, w')

  unfoldable pub after_snapshot : Loop → Outcome Sample → bk.World → Loop × bk.World
  unfolding prune_due
  after_snapshot l (ok cur) w = prune_due (ltb (6 * 3600) (bk.time w - l.last_prune)) cur l w
  after_snapshot l (raise e) w = (record l { prev = none }, w)

  -- One round of the loop in `main`: every exception is caught.
  unfoldable pub monitor_round : Loop → bk.World → Loop × bk.World
  unfolding snapshot_once after_snapshot
  monitor_round l w = let (o, w') = snapshot_once l.prev w in after_snapshot l o w'
