-- ===== src/Fetcher/Retry.antt =====
-- `fetch_one` of py-processor/fetcher.py: the attempts at one URL, and what each does to the pool.
pub mod Attempts
use webspider.Prelude.{
  ℕ, zero, suc, ◌+◌, ◌*◌, leb, ◌==◌, ◌||◌, Bool, Option, none, some, Text, List, [], ◌∷◌, ◌++◌,
  if◌then◌else◌,
}
use webspider.Outcome.{Error, value_error, overflow_error, Outcome, ok, raise}
use webspider.Dedupe.{ℤ, pos, negsuc}

-- What `_parse_retry_after` reads of a Retry-After header: a float, of which the whole number of
-- seconds is kept where it is finite.
pub data Seconds : Type 0 where
  finite : ℤ → Seconds
  infinite : Seconds
  nan : Seconds

-- What `requests` does with a GET: it raises, or it returns a status, a text and what is read of the
-- Retry-After header.
pub data Reply : Type 0 where
  request_exception : Reply
  response : ℕ → Text → Option Seconds → Reply

-- The steps of an attempt, in order. `backoff` is a sleep of the jittered delay of the attempt.
pub data Step : Type 0 where
  acquire : Step
  acquire_host : Step
  get : Step
  backoff : ℕ → Step
  sleep : ℕ → Step
  penalise_all : Seconds → Step
  penalise_host : ℕ → Step

-- The text, `None`, or a PermanentFetchError of a status.
pub data FetchResult : Type 0 where
  text : Text → FetchResult
  failed : FetchResult
  gone : ℕ → FetchResult

-- The settings, whether the URL has a host, and the longest sleep that `time.sleep` takes.
pub record Fetching : Type 0 where
  pub retries : ℕ
  pub cooldown_403 : ℕ
  pub has_host : Bool
  pub longest_sleep : ℕ

-- What an attempt makes of a reply, with the steps that it takes: the outcome of `fetch_one`, or the
-- next attempt.
pub data Handled : Type 0 where
  settled : List Step → Outcome FetchResult → Handled
  retry : List Step → Handled

-- `time.sleep(seconds)`: the exception that it raises, if any.
unfoldable pub sleep_error : Fetching → Seconds → Option Error
sleep_error cfg (finite (pos n)) = if leb n cfg.longest_sleep then none else some overflow_error
sleep_error cfg (finite (negsuc n)) = some value_error
sleep_error cfg infinite = some overflow_error
sleep_error cfg nan = some value_error

abbrev seconds_of : Seconds → ℕ
seconds_of (finite (pos n)) = n
seconds_of _ = 0

unfoldable pub sleep_on : Seconds → Option Error → Handled
sleep_on ra none = retry (penalise_all ra ∷ sleep (seconds_of ra) ∷ [])
sleep_on ra (some e) = settled (penalise_all ra ∷ []) (raise e)

-- `ra if ra is not None else 5.0`, then the sleep: Retry-After wins over the backoff.
unfoldable pub throttled : Fetching → ℕ → Option Seconds → Handled
unfolding sleep_on sleep_error
throttled cfg attempt none = retry (penalise_all (finite (pos 5)) ∷ backoff attempt ∷ [])
throttled cfg attempt (some ra) = sleep_on ra (sleep_error cfg ra)

unfoldable pub if_host : Fetching → Step → List Step → List Step
if_host cfg step rest = if cfg.has_host then step ∷ rest else rest

unfoldable pub handle_reply : Fetching → ℕ → Reply → Handled
unfolding throttled if_host
handle_reply cfg attempt request_exception = retry (backoff attempt ∷ [])
handle_reply cfg attempt (response status body ra) =
    if status == 200
    then settled [] (ok (text body))
    else if status == 404 || status == 410
    then settled [] (ok (gone status))
    else if status == 429
    then throttled cfg attempt ra
    else if status == 403
    then retry (if_host cfg (penalise_host (cfg.cooldown_403 * (attempt + 1))) (sleep 2 ∷ []))
    else if leb 500 status
    then retry (backoff attempt ∷ [])
    else settled [] (ok failed)

-- The steps that end in a request.
unfoldable pub ask : Fetching → List Step
unfolding if_host
ask cfg = acquire ∷ if_host cfg acquire_host (get ∷ [])

unfoldable pub after :
    List Step → Handled → Outcome FetchResult × List Step → Outcome FetchResult × List Step
after steps (settled more r) rest = (r, steps ++ more)
after steps (retry more) (r, later) = (r, steps ++ (more ++ later))

-- The loop, with `n` attempts left; `replies` are those of the server, by attempt.
unfoldable pub attempts : Fetching → (ℕ → Reply) → ℕ → ℕ → Outcome FetchResult × List Step
unfolding handle_reply after ask
attempts cfg replies zero attempt = (ok failed, [])
attempts cfg replies (suc n) attempt =
    let rest = attempts cfg replies n (suc attempt) in
    after (ask cfg) (handle_reply cfg attempt (replies attempt)) rest

unfoldable pub fetch_one : Fetching → (ℕ → Reply) → Outcome FetchResult × List Step
unfolding attempts
fetch_one cfg replies = attempts cfg replies (suc cfg.retries) 0
