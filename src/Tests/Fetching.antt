-- ===== src/Tests/Fetching.antt =====
-- The token bucket and the attempts at a page at concrete inputs.
use webspider.Prelude.{
  ℕ, zero, suc, ◌+◌, ◌-◌, ◌*◌, ◌≤◌, ◌≡◌, refl, arith, false, List, [], ◌∷◌, none, some, codes,
}
use webspider.Outcome.{ok, raise, value_error}
use webspider.Dedupe.{pos, negsuc}
use webspider.Fetcher.{
  TokenBucket, make_bucket, acquire_pass, penalise, Event, pass, penalty, grants,
}
use webspider.Fetcher.Rate.{grants-bound}
use webspider.Fetcher.Penalty.{penalise-refills}
use webspider.Fetcher.Retry.{
  finite, Reply, request_exception, response, acquire, get, backoff, sleep, penalise_all, text,
  Fetching, fetch_one,
}
use webspider.Fetcher.Retry.Attempts.{Ends, requests, fetch_one-Ends}

-- Two tokens of ten units, and one unit a tick.
abbrev bucket : TokenBucket
bucket = record { rate = 1; capacity = 20; tokens = 20; last = 100 }

bucket_made : make_bucket 1 20 100 ≡ bucket
unfolding make_bucket
bucket_made = refl

-- Two passes at once, a third that has to wait, and the same one ten ticks later.
abbrev passes : List Event
passes = pass 100 ∷ pass 100 ∷ pass 101 ∷ pass 110 ∷ []

three_granted : grants 50 10 passes bucket ≡ 3
unfolding grants
three_granted = refl

third_waits : (acquire_pass 50 10 101 (record bucket { tokens = 0 })).0 ≡ ok (some 9)
unfolding acquire_pass
third_waits = refl

grants-bound_example : grants 50 10 passes bucket * 10 ≤ 20 + (110 - 100) * 1
grants-bound_example = grants-bound passes 50 10 100 110 bucket (omega arith) (omega arith) tt

-- A penalty of -1000 seconds between two passes at once: the bucket is full again.
refilled :
    grants 50 10 (pass 2000 ∷ penalty (negsuc 999) 2000 ∷ pass 2000 ∷ pass 2000 ∷ []) bucket ≡ 3
unfolding grants
refilled = refl

penalise-refills_example :
    acquire_pass 50 10 2000 (penalise (negsuc 999) 2000 bucket)
    ≡ (ok none, record bucket { tokens = 20 - 10; last = 2000 })
penalise-refills_example =
    penalise-refills 50 10 999 2000 bucket (omega arith) (omega arith) (omega arith)

-- A later and shorter penalty ends a longer one: the refill clock is set, not pushed.
shorter_penalty : (penalise (pos 1) 105 (penalise (pos 90) 100 bucket)).last ≡ 106
unfolding penalise
shorter_penalty = refl

abbrev settings : Fetching
settings = record { retries = 3; cooldown_403 = 90; has_host = false; longest_sleep = 9000000000 }

-- A connection error, a 429 with Retry-After, then the page.
abbrev server : ℕ → Reply
server zero = request_exception
server (suc zero) = response 429 [] (some (finite (pos 7)))
server (suc (suc n)) = response 200 (codes "page") none

page_fetched : fetch_one settings server ≡ (
  ok (text (codes "page")),
  acquire
      ∷ get
      ∷ backoff 0
      ∷ acquire
      ∷ get
      ∷ penalise_all (finite (pos 7))
      ∷ sleep 7
      ∷ acquire
      ∷ get
      ∷ [],
)
unfolding fetch_one
page_fetched = refl

fetch_one-Ends_example :
    Ends settings server 4 0 (requests (fetch_one settings server).1) (fetch_one settings server).0
fetch_one-Ends_example = fetch_one-Ends settings server

-- The first reply is a 429 whose Retry-After is negative.
abbrev behind : ℕ → Reply
behind n = response 429 [] (some (finite (negsuc 0)))

negative_raises :
    fetch_one settings behind
    ≡ (raise value_error, acquire ∷ get ∷ penalise_all (finite (negsuc 0)) ∷ [])
unfolding fetch_one
negative_raises = refl
