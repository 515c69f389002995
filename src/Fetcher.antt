-- ===== src/Fetcher.antt =====
-- py-processor/fetcher.py: the token bucket that every worker shares.
pub mod Rate
pub mod Penalty
pub mod Retry
pub mod Backoff
pub mod Many
pub mod Hosts
use webspider.Prelude.{
  ℕ, suc, ◌+◌, ◌-◌, ◌*◌, ◌/◌, min, leb, ◌==◌, Option, none, some, List, [], ◌∷◌, if◌then◌else◌,
}
use webspider.Outcome.{Outcome, ok, raise, zero_division}
use webspider.Dedupe.{ℤ, pos, negsuc}

-- `TokenBucket`. Time is in ticks and tokens are in units, both as fine as one likes, with a whole
-- number of units for each tick; in these the code's floats are whole numbers. Times count from an
-- instant that no `last` lies before.
pub record TokenBucket : Type 0 where
  pub rate : ℕ
  pub capacity : ℕ
  pub tokens : ℕ
  pub last : ℕ

-- `TokenBucket(rate, capacity)` at the time `now`: a full bucket.
unfoldable pub make_bucket : ℕ → ℕ → ℕ → TokenBucket
make_bucket rate capacity now = record {
  rate = rate;
  capacity = capacity;
  tokens = capacity;
  last = now;
}

-- The refill up to `now`.
unfoldable pub refill : ℕ → TokenBucket → TokenBucket
refill now b = record b { tokens = min b.capacity (b.tokens + (now - b.last) * b.rate); last = now }

-- After the refill: the tokens are taken, or the time to wait for them is computed.
unfoldable pub take_tokens : ℕ → ℕ → TokenBucket → Outcome (Option ℕ) × TokenBucket
take_tokens five need b =
    if leb need b.tokens
    then (ok none, record b { tokens = b.tokens - need })
    else if b.rate == 0
    then (raise zero_division, b)
    else (ok (some (min ((need - b.tokens) / b.rate) five)), b)

-- One pass of the loop of `acquire` at the time `now`, under the lock: `none` is a return, and
-- `some d` a sleep of `d` ticks before the next pass. `five` is five seconds.
unfoldable pub acquire_pass : ℕ → ℕ → ℕ → TokenBucket → Outcome (Option ℕ) × TokenBucket
unfolding refill take_tokens
acquire_pass five need now b =
    if leb b.last now
    then take_tokens five need (refill now b)
    else (ok (some (min (b.last - now) five)), b)

-- `now + float(seconds)`; the number may be negative, as a Retry-After header can make it, and a
-- float that is not finite is left out.
unfoldable pub shifted : ℕ → ℤ → ℕ
shifted now (pos n) = now + n
shifted now (negsuc n) = now - suc n

unfoldable pub penalise : ℤ → ℕ → TokenBucket → TokenBucket
unfolding shifted
penalise seconds now b = record b { tokens = 0; last = shifted now seconds }

-- What threads do to a shared bucket, each step under its lock, at the time that it reads.
pub data Event : Type 0 where
  pass : ℕ → Event
  penalty : ℤ → ℕ → Event

-- One more where the pass returned.
unfoldable pub count_grant : Outcome (Option ℕ) → ℕ → ℕ
count_grant (ok none) n = 1 + n
count_grant (ok (some d)) n = n
count_grant (raise e) n = n

-- The acquisitions that a sequence of steps grants, each of `need` units.
unfoldable pub grants : ℕ → ℕ → List Event → TokenBucket → ℕ
unfolding acquire_pass penalise count_grant
grants five need [] b = 0
grants five need (pass now ∷ events) b =
    let (r, b') = acquire_pass five need now b in count_grant r (grants five need events b')
grants five need (penalty seconds now ∷ events) b = grants five need events (penalise seconds now b)
