-- ===== src/Tests/Consumers.antt =====
-- Recovery of pending messages and reconnection at concrete inputs.
use webspider.Prelude.{
  ◌+◌, ◌<◌, min, ◌≡◌, refl, arith, true, false, text_eq, text_elem, elem, ltb, lt→ltb,
}
use webspider.Outcome.{ok}
use webspider.Services.Run.{State, ◌>>=◌, ◌>>◌, issue, lift, pure, catch}
use webspider.Dedupe.{simhash, bucket_keys, is_token_char}
use webspider.Neardup.{is_duplicate, band_key, index}
use webspider.Str.{decimal}
use webspider.Store.{insert_articles}
use webspider.Pipeline.Counts.{bump}
use webspider.Pipeline.DeadLetter.{push_dlq}
use webspider.Pipeline.Batch.{msg_ids, lookup, gather}
use webspider.Pipeline.Consumer.{recover_pending, reconnect}
use webspider.Pipeline.Consumer.Recovery.{LoopEnd, recover_pending-LoopEnd}
use webspider.Pipeline.Consumer.Leak.{reconnect-exhausted, reconnect-min}
use webspider.Tests.World.{hashing, small, libraries, batch}
use webspider.Tests.Queue.{
  Queue, queue, down_queue, without, three, stuck, take_conn, queue-Pending, down-Pool,
}

-- Three messages are acknowledged in the first round; the second finds nothing.
drained_run : (recover_pending queue hashing small libraries 4 three).result ≡ ok true
unfolding recover_pending ◌>>=◌ issue ◌>>◌ lift pure text_eq text_elem lookup push_dlq catch
    is_duplicate bucket_keys elem insert_articles index bump without gather decimal simhash
    is_token_char band_key
drained_run = refl

recover_pending-LoopEnd_example :
    LoopEnd queue-Pending hashing small libraries
      (recover_pending queue hashing small libraries 4 three).result
      (recover_pending queue hashing small libraries 4 three).state
unfolding msg_ids
recover_pending-LoopEnd_example =
    recover_pending-LoopEnd queue-Pending hashing small libraries 4 three (omega arith)
      (omega arith)

-- Twelve rounds that fail take the nine connections that are left.
failing_run : (reconnect down_queue hashing small libraries 3 12 stuck).result ≡ ok false
unfolding reconnect ◌>>=◌ catch ◌>>◌ issue
failing_run = refl

answers_lem : (w : Queue) → w.taken < 10 → (take_conn (ltb w.taken 10) w).0 ≡ ok tt
answers_lem w less = rw (lt→ltb w.taken 10 less) refl

reconnect-min_example :
    (reconnect down_queue hashing small libraries 3 12 stuck).state.world.taken ≡ min 10 (1 + 12)
reconnect-min_example =
    reconnect-min down-Pool hashing small libraries 3 12 stuck answers_lem (omega arith) failing_run

abbrev full : State down_queue
full = record stuck { world = record { pending = batch; taken = 10 } }

reconnect-exhausted_example :
    (reconnect down_queue hashing small libraries 3 5 full).result ≡ ok false
reconnect-exhausted_example =
    reconnect-exhausted down-Pool hashing small libraries 3 5 full (omega arith)
