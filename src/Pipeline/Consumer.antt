-- ===== src/Pipeline/Consumer.antt =====
-- `recover_pending`, `_drop_broken_conn` and `main` of py-processor/main.py. The client id, the
-- sleeps and the log lines are left out. An endless loop is cut into its rounds.
pub mod Recovery
pub mod Leak
use webspider.Prelude.{
  ℕ, zero, suc, Bool, true, false, List, [], ◌∷◌, ◌++◌, Option, some, none, Text,
}
use webspider.Outcome.{Outcome, ok, raise}
use webspider.Config.{Config}
use webspider.Dedupe.{Hashing}
use webspider.Services.{Services, Message, Call}
use webspider.Services.Run.{State, Run, M, pure, issue, catch, ◌>>=◌, ◌>>◌}
use webspider.Neardup.{warm_from_db}
use webspider.Pipeline.{Libraries}
use webspider.Pipeline.Batch.{process_batch}

-- How a round of the loop in `recover_pending` ends: it breaks, or goes on.
pub data Next : Type 0 where
  drained : Next
  again : Next

module _ (sv : Services) (hs : Hashing) (cfg : Config) (lib : Libraries) where
  -- The response to the second read; `none` is one that holds nothing.
  unfoldable pub recover_batch : Option (List Message) → M sv Next
  unfolding process_batch
  recover_batch none = pure drained
  recover_batch (some messages) = do process_batch sv hs cfg lib (some messages); pure again

  unfoldable pub recover_pending_ids : List Text → M sv Next
  unfolding recover_batch
  recover_pending_ids [] = pure drained
  recover_pending_ids (id ∷ ids) = do
    response ← issue Call.xread (sv.xread_pending cfg.batch_size)
    recover_batch response

  -- One round of the loop.
  unfoldable pub recover_round : M sv Next
  unfolding recover_pending_ids
  recover_round = do
    pending ← issue Call.xpending (sv.xpending cfg.batch_size)
    recover_pending_ids pending

  -- The loop, for at most `fuel` rounds; `false` says that they were not enough.
  unfoldable pub recover_next : M sv Bool → Next → M sv Bool
  recover_next rest drained = pure true
  recover_next rest again = rest

  unfoldable pub recover_pending : ℕ → M sv Bool
  unfolding recover_round recover_next
  recover_pending zero = pure false
  recover_pending (suc fuel) = do next ← recover_round; recover_next (recover_pending fuel) next

  -- `_drop_broken_conn(conn)`, where `connected` says that it is not None.
  unfoldable pub drop_broken_conn : Bool → M sv (Unit {0})
  drop_broken_conn false = pure tt
  drop_broken_conn true = do
    catch (issue Call.rollback sv.rollback) tt
    catch (issue Call.close_conn sv.close_conn) tt

  -- `if conn is None: conn = get_conn()`
  unfoldable pub connect : Bool → M sv (Unit {0})
  connect true = pure tt
  connect false = issue Call.get_conn sv.get_conn

  unfoldable pub take_response : Option (List Message) → M sv (Unit {0})
  unfolding process_batch
  take_response none = pure tt
  take_response (some messages) = process_batch sv hs cfg lib (some messages)

  -- The body of the `try` in `main` once there is a connection.
  unfoldable pub read_batch : M sv (Unit {0})
  unfolding take_response
  read_batch = do response ← issue Call.xread (sv.xread_new cfg.batch_size); take_response response

  -- How the body ended, and whether there is a connection then: one that was not got is missing
  -- still.
  unfoldable pub settle_read : Run sv (Unit {0}) → Outcome (Unit {0}) → Run sv (Bool × Bool)
  settle_read r (ok t) = record { result = ok (true, true); state = r.state; calls = r.calls }
  settle_read r (raise e) = record { result = ok (false, true); state = r.state; calls = r.calls }

  unfoldable pub try_read : M sv (Bool × Bool)
  unfolding settle_read read_batch
  try_read s = let r = read_batch s in settle_read r r.result

  unfoldable pub after_connect : Bool → Run sv (Unit {0}) → Outcome (Unit {0}) → M sv (Bool × Bool)
  unfolding try_read
  after_connect connected r (ok t) s = try_read s
  after_connect connected r (raise e) s = pure (false, connected) s

  -- The body of the `try`: whether it succeeded, and whether there is a connection.
  unfoldable pub try_body : Bool → M sv (Bool × Bool)
  unfolding connect after_connect
  try_body connected s =
      let r = connect connected s in
      let r' = after_connect connected r r.result r.state in
      record r' { calls = r.calls ++ r'.calls }

  -- One round of the inner `while True` of `main`: a new connection, then the pending messages.
  unfoldable pub reconnect_round : ℕ → M sv Bool
  unfolding recover_pending
  reconnect_round fuel = do issue Call.get_conn sv.get_conn; recover_pending fuel

  unfoldable pub retry_or : M sv Bool → Bool → M sv Bool
  retry_or rest true = pure true
  retry_or rest false = rest

  -- At most `rounds` of them; a round that raises is followed by the next.
  unfoldable pub reconnect : ℕ → ℕ → M sv Bool
  unfolding reconnect_round retry_or
  reconnect fuel zero = pure false
  reconnect fuel (suc rounds) = do
    done ← catch (reconnect_round fuel) false
    retry_or (reconnect fuel rounds) done

  unfoldable pub after_body : ℕ → ℕ → Bool × Bool → M sv Bool
  unfolding drop_broken_conn reconnect
  after_body fuel rounds (true, connected) = pure true
  after_body fuel rounds (false, connected) = do drop_broken_conn connected; reconnect fuel rounds

  -- One round of the outer loop: whether it ends with a connection, within the rounds given to
  -- the loops inside.
  unfoldable pub main_round : ℕ → ℕ → Bool → M sv Bool
  unfolding try_body after_body
  main_round fuel rounds connected = do ended ← try_body connected; after_body fuel rounds ended

  -- What `main` does before the loop.
  unfoldable pub main_start : ℕ → M sv Bool
  unfolding warm_from_db recover_pending
  main_start fuel = do
    issue Call.xgroup_create sv.xgroup_create
    issue Call.get_conn sv.get_conn
    warm_from_db sv hs cfg
    recover_pending fuel
