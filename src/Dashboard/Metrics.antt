-- ===== src/Dashboard/Metrics.antt =====
-- `pipeline` of py-processor/dashboard/queries.py: the counters in Redis.
use webspider.Prelude.{ℕ, List, Option, Text, codes}
use webspider.Outcome.{Outcome}
use webspider.Action.{Action, pure, lift, ◌>>=◌}
use webspider.Pipeline.Counts.{Counts}
use webspider.Monitor.{int_or_zero, int_values, pending_of}

-- XPENDING: a ResponseError, an answer that is no dictionary, or the `pending` of one.
pub data Pending : Type 0 where
  response_error : Pending
  other_answer : Pending
  answer : Option ℕ → Pending

pub record Redis (W : Type 0) : Type 0 where
  pub get : Text → Action W (Option Text)
  pub hgetall : Text → Action W (List (Text × Text))
  pub xlen : Text → Action W ℕ
  pub xpending : Action W Pending

pub record Counters : Type 0 where
  pub produced : ℕ
  pub stored : ℕ
  pub rejected : ℕ
  pub rejected_by_reason : Counts
  pub by_source : Counts
  pub rejected_by_source : Counts
  pub produced_by_source : Counts
  pub dlq : ℕ
  pub stream_length : ℕ
  pub pending : ℕ

unfoldable pub pending_count : Pending → ℕ
unfolding pending_of
pending_count response_error = 0
pending_count other_answer = 0
pending_count (answer n) = pending_of n

module _ {W : Type 0} (r : Redis W) (int : Text → Outcome ℕ) (stream dlq_stream : Text) where
  unfoldable pub counter : Text → Action W ℕ
  unfolding int_or_zero
  counter k = do v ← r.get k; lift (int_or_zero int v)

  unfoldable pub counters : Text → Action W Counts
  unfolding int_values
  counters k = do d ← r.hgetall k; lift (int_values int d)

  unfoldable pub pipeline : Action W Counters
  unfolding counter counters pending_count
  pipeline = do
    produced ← counter (codes "metrics:articles:produced")
    stored ← counter (codes "metrics:articles:stored")
    rejected ← counter (codes "metrics:articles:rejected")
    rejected_by_reason ← counters (codes "metrics:articles:rejected_by_reason")
    by_source ← counters (codes "metrics:articles:stored_by_source")
    rejected_by_source ← counters (codes "metrics:articles:rejected_by_source")
    produced_by_source ← counters (codes "metrics:articles:produced_by_source")
    dlq ← r.xlen dlq_stream
    stream_length ← r.xlen stream
    pending ← r.xpending
    pure (record {
      produced = produced;
      stored = stored;
      rejected = rejected;
      rejected_by_reason = rejected_by_reason;
      by_source = by_source;
      rejected_by_source = rejected_by_source;
      produced_by_source = produced_by_source;
      dlq = dlq;
      stream_length = stream_length;
      pending = pending_count pending;
    })
