-- ===== src/Monitor/Returned.antt =====
-- The connection that py-processor/monitor.py takes from the pool in a round.
use webspider.Prelude.{ℕ, suc, ◌≡◌, refl, ◌∙◌, Bool, true, false, List, Option, Text}
use webspider.Outcome.{Outcome, ok, raise, Error}
use webspider.Services.Keeps.{Spares}
use webspider.Action.Borrowing.{Pool, borrow, borrow-Spares}
use webspider.Action.Sparing.{Spares-bind, Spares-then, Spares-pure, Spares-lift}
use webspider.Monitor.{
  Sample, Delta, Backend, counter, counters, read_state, save, snapshot_once, prune_old, Loop,
  prune_due, after_snapshot, monitor_round,
}

-- A pool with `out` connections checked out. No other call takes one or gives one back.
pub record Pooled (bk : Backend) (out : bk.World → ℕ) : Type 0 where
  pub given : (w : bk.World) → (bk.get_conn w).0 ≡ ok tt → out (bk.get_conn w).1 ≡ suc (out w)
  pub refused :
      (w : bk.World) (e : Error) → (bk.get_conn w).0 ≡ raise e → out (bk.get_conn w).1 ≡ out w
  pub returned : (w : bk.World) (n : ℕ) → out w ≡ suc n → out (bk.put_conn w).1 ≡ n
  pub xpending : Spares out bk.xpending
  pub get : (k : Text) → Spares out (bk.get k)
  pub xlen : (k : Text) → Spares out (bk.xlen k)
  pub hgetall : (k : Text) → Spares out (bk.hgetall k)
  pub insert : (s : Sample) (d : List (Text × Delta)) → Spares out (bk.insert s d)
  pub prune : (days : ℕ) → Spares out (bk.prune days)
  pub commit : Spares out bk.commit

module _ {bk : Backend} {out : bk.World → ℕ} (pool : Pooled bk out) (int : Text → Outcome ℕ)
    (stream dlq_stream : Text) (retention_days : ℕ) where
  open pool use {given, refused, returned, xpending, get, xlen, hgetall, insert, prune, commit}

  counter-Spares : (k : Text) → Spares out (counter bk int stream dlq_stream retention_days k)
  unfolding counter
  counter-Spares k = Spares-bind _ _ (get k) (λ v. Spares-lift _)

  counters-Spares : (k : Text) → Spares out (counters bk int stream dlq_stream retention_days k)
  unfolding counters
  counters-Spares k = Spares-bind _ _ (hgetall k) (λ d. Spares-lift _)

  read_state-Spares : Spares out (read_state bk int stream dlq_stream retention_days)
  unfolding read_state
  read_state-Spares = Spares-bind _ _ xpending (λ pend.
      Spares-bind _ _ (counter-Spares _) (λ produced. Spares-bind _ _ (counter-Spares _) (λ stored.
        Spares-bind _ _ (counter-Spares _) (λ rejected. Spares-bind _ _ (xlen _) (λ dlq.
          Spares-bind _ _ (xlen _) (λ stream_len. Spares-bind _ _ (counters-Spares _) (λ p.
            Spares-bind _ _ (counters-Spares _)
              (λ s. Spares-bind _ _ (counters-Spares _) (λ r. Spares-pure _)))))))))

  checked_out-Pool : Pool bk.get_conn bk.put_conn out
  checked_out-Pool = record { given = given; refused = refused; returned = returned }

  save-Spares :
      (cur : Sample) (d : List (Text × Delta))
      → Spares out (save bk int stream dlq_stream retention_days cur d)
  unfolding save borrow
  save-Spares cur d =
      borrow-Spares bk.get_conn bk.put_conn out _ checked_out-Pool
        (Spares-then _ _ (insert cur d) commit)

  snapshot_once-Spares :
      (prev : Option Sample)
      → Spares out (snapshot_once bk int stream dlq_stream retention_days prev)
  unfolding snapshot_once
  snapshot_once-Spares prev =
      Spares-bind _ _ read_state-Spares
        (λ cur. Spares-then _ _ (save-Spares cur _) (Spares-pure cur))

  prune_old-Spares : Spares out (prune_old bk int stream dlq_stream retention_days)
  unfolding prune_old borrow
  prune_old-Spares =
      borrow-Spares bk.get_conn bk.put_conn out _ checked_out-Pool
        (Spares-then _ _ (prune retention_days) commit)

  abbrev TheLoop : Type 0
  TheLoop = Loop bk int stream dlq_stream retention_days

  prune_due-out :
      (b : Bool) (cur : Sample) (l : TheLoop) (w : bk.World)
      → out (prune_due bk int stream dlq_stream retention_days b cur l w).1 ≡ out w
  unfolding prune_due
  prune_due-out false cur l w = refl
  prune_due-out true cur l w = prune_old-Spares.at w

  after_snapshot-out :
      (l : TheLoop) (o : Outcome Sample) (w : bk.World)
      → out (after_snapshot bk int stream dlq_stream retention_days l o w).1 ≡ out w
  unfolding after_snapshot
  after_snapshot-out l (ok cur) w = prune_due-out _ cur l w
  after_snapshot-out l (raise e) w = refl

  -- A round of the monitor gives back what it takes: it leaves as many connections checked out as
  -- there were, whatever raises in it, where the pool keeps the laws of `Pooled`.
  pub monitor_round-out :
      (l : TheLoop) (w : bk.World)
      → out (monitor_round bk int stream dlq_stream retention_days l w).1 ≡ out w
  unfolding monitor_round
  monitor_round-out l w =
      after_snapshot-out l (snapshot_once bk int stream dlq_stream retention_days l.prev w).0
        (snapshot_once bk int stream dlq_stream retention_days l.prev w).1
      ∙ (snapshot_once-Spares l.prev).at w
