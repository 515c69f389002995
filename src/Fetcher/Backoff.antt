-- ===== src/Fetcher/Backoff.antt =====
-- `_parse_retry_after` and `_backoff_delay` of py-processor/fetcher.py, and `_parse_retry_after` of
-- py-processor/embed_chunks.py. Times are in ticks; `float` and the dates of a header are parameters.
use webspider.Prelude.{ℕ, ◌*◌, ◌^◌, ◌≤◌, min, arith, Option, none, some, [], ◌∷◌, Text}
use webspider.Dedupe.{ℤ, pos, negsuc}
use webspider.Str.{strip}

-- `delta if delta > 0 else 0.0`
unfoldable pub not_negative : ℤ → ℤ
not_negative (pos n) = pos n
not_negative (negsuc n) = pos 0

module _ (float : Text → Option ℤ) (until : Text → Option ℤ) where
  -- `until` is the time from now to an HTTP date; `none` is a TypeError or a ValueError.
  unfoldable pub read_date : Option ℤ → Option ℤ
  unfolding not_negative
  read_date none = none
  read_date (some delta) = some (not_negative delta)

  unfoldable pub read_after : Text → Option ℤ → Option ℤ
  unfolding read_date
  read_after value (some seconds) = some seconds
  read_after value none = read_date (until value)

  unfoldable pub parse_retry_after : Option Text → Option ℤ
  unfolding read_after strip
  parse_retry_after none = none
  parse_retry_after (some value) = read_after (strip value) (float (strip value))

  -- The one of embed_chunks.py: no date, and no time below zero.
  unfoldable pub embed_retry_after : Option Text → Option ℤ
  unfolding read_date
  embed_retry_after none = none
  embed_retry_after (some []) = none
  embed_retry_after (some (c ∷ s)) = read_date (float (c ∷ s))

-- `base`, where `second` ticks are a second.
unfoldable pub backoff_base : ℕ → ℕ → ℕ → ℕ
backoff_base second max_backoff attempt = min max_backoff (2 ^ attempt * second)

-- `_backoff_delay(attempt, retry_after)`; `uniform` is `random.uniform(0, …)`.
unfoldable pub backoff_delay : (ℕ → ℕ) → ℕ → ℕ → ℕ → Option ℤ → ℤ
unfolding backoff_base
backoff_delay uniform second max_backoff attempt (some retry_after) = retry_after
backoff_delay uniform second max_backoff attempt none =
    pos (uniform (backoff_base second max_backoff attempt))

-- A time from zero to a bound.
abbrev Within : ℕ → ℤ → Type 0
Within bound (pos n) = n ≤ bound
Within bound (negsuc n) = ⊥

-- Without a Retry-After the delay is not negative and at most FETCH_MAX_BACKOFF, where the random
-- number is within its limits.
backoff_delay-Within :
    (uniform : ℕ → ℕ) (second max_backoff attempt : ℕ)
    → ((base : ℕ) → uniform base ≤ base)
    → Within max_backoff (backoff_delay uniform second max_backoff attempt none)
unfolding backoff_delay backoff_base
backoff_delay-Within uniform second max_backoff attempt h =
    let drawn = h (min max_backoff (2 ^ attempt * second)) in omega arith
