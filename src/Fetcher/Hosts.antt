-- ===== src/Fetcher/Hosts.antt =====
-- `parse_host_overrides` and `_get_host_bucket` of py-processor/fetcher.py: the rates of the hosts,
-- and the table of their buckets. `str.lower`, `float` and `urlsplit` are parameters.
pub mod Kept
use webspider.Prelude.{
  ℕ, ◌==◌, Bool, true, false, List, [], ◌∷◌, ◌++◌, Option, none, some, Text, text_eq, length,
  if◌then◌else◌,
}
use webspider.Str.{strip}
use webspider.Fetcher.{TokenBucket, make_bucket}

abbrev before_first : ℕ → List Text → List Text
before_first c [] = (c ∷ []) ∷ []
before_first c (part ∷ parts) = (c ∷ part) ∷ parts

-- `s.split(sep)` for a separator of one character.
unfoldable pub split_on : ℕ → Text → List Text
split_on sep [] = [] ∷ []
split_on sep (c ∷ s) =
    let parts = split_on sep s in if c == sep then [] ∷ parts else before_first c parts

abbrev or_here : Bool → ℕ → Text → Option (Text × Text) → Option (Text × Text)
or_here here c s (some (before, after)) = some (c ∷ before, after)
or_here true c s none = some ([], s)
or_here false c s none = none

-- `s.rpartition(sep)`, with `none` where `sep not in s`.
unfoldable pub rpartition : ℕ → Text → Option (Text × Text)
rpartition sep [] = none
rpartition sep (c ∷ s) = or_here (c == sep) c s (rpartition sep s)

-- `d[k] = v` and `d.get(k)`.
unfoldable pub set_key {ℓ} : {A : Type ℓ} → Text → A → List (Text × A) → List (Text × A)
set_key k v [] = (k, v) ∷ []
set_key k v ((j, u) ∷ d) = if text_eq k j then (j, v) ∷ d else (j, u) ∷ set_key k v d

unfoldable pub get_key {ℓ} : {A : Type ℓ} → Text → List (Text × A) → Option A
get_key k [] = none
get_key k ((j, v) ∷ d) = if text_eq k j then some v else get_key k d

-- A rate is in units for each tick; `float` reads one, and `none` is a ValueError.
module _ (lower : Text → Text) (float : Text → Option ℕ) where
  unfoldable pub set_rate : Text → Option ℕ → List (Text × ℕ) → List (Text × ℕ)
  unfolding set_key strip
  set_rate host none d = d
  set_rate host (some rate) d = set_key (lower (strip host)) rate d

  unfoldable pub add_part : Option (Text × Text) → List (Text × ℕ) → List (Text × ℕ)
  unfolding set_rate
  add_part none d = d
  add_part (some (host, rate)) d = set_rate host (float rate) d

  -- The loop over the parts, from the overrides read so far. An empty part has no ":".
  unfoldable pub overrides_from : List (Text × ℕ) → List Text → List (Text × ℕ)
  unfolding add_part rpartition strip
  overrides_from d [] = d
  overrides_from d (part ∷ parts) = overrides_from (add_part (rpartition b':' (strip part)) d) parts

  unfoldable pub parse_host_overrides : Text → List (Text × ℕ)
  unfolding overrides_from split_on
  parse_host_overrides spec = overrides_from [] (split_on b',' spec)

unfoldable pub or_rate : ℕ → Option ℕ → ℕ
or_rate default none = default
or_rate default (some rate) = rate

-- The calls of `_get_host_bucket` that threads make, and what they share: the table, from a host
-- to the number of its bucket; the buckets made so far, by number; and for each thread the host
-- for which it has found none in the table, until it has stored a bucket for it. No lock is held.
pub record Shared : Type 0 where
  pub table : List (Text × ℕ)
  pub made : List TokenBucket
  pub missed : ℕ → Option Text

unfoldable pub set_missed : ℕ → Option Text → Shared → Shared
set_missed thread host s = record s { missed = λ t. if t == thread then host else s.missed t }

-- `_host_buckets.get(host)` and the test: a call that finds a bucket returns it.
unfoldable pub look_up : ℕ → Text → Option ℕ → Shared → Option ℕ × Shared
unfolding set_missed
look_up thread host (some b) s = (some b, s)
look_up thread host none s = (none, set_missed thread (some host) s)

unfoldable pub look_host : ℕ → Text → Shared → Option ℕ × Shared
unfolding look_up get_key
look_host thread [] s = (none, s)
look_host thread (c ∷ host) s = look_up thread (c ∷ host) (get_key (c ∷ host) s.table) s

-- What the threads do, in whatever order.
pub data Move : Type 0 where
  looks : ℕ → Text → Move
  stores : ℕ → ℕ → Move

-- `hostname` is `urlsplit(url).hostname or ""`; `capacity` is `max(1.0, rate)` in units.
module _ (lower hostname : Text → Text) (capacity : ℕ → ℕ) (overrides : List (Text × ℕ))
    (default : ℕ) where
  -- A full bucket at the rate of the host.
  unfoldable pub bucket_for : Text → ℕ → TokenBucket
  unfolding or_rate get_key make_bucket
  bucket_for host now =
      let rate = or_rate default (get_key host overrides) in make_bucket rate (capacity rate) now

  -- The call of a thread up to there: no bucket, without a host; the one of the table; or none yet.
  unfoldable pub look : ℕ → Text → Shared → Option ℕ × Shared
  unfolding look_host
  look thread url s = look_host thread (lower (hostname url)) s

  unfoldable pub store_for : ℕ → ℕ → Option Text → Shared → Option ℕ × Shared
  unfolding set_key bucket_for set_missed
  store_for thread now none s = (none, s)
  store_for thread now (some host) s = (
    some (length s.made),
    set_missed thread none (record s {
      table = set_key host (length s.made) s.table;
      made = s.made ++ bucket_for host now ∷ [];
    }),
  )

  -- The rest of the call of a thread that has found none: a new bucket is stored and returned.
  unfoldable pub store : ℕ → ℕ → Shared → Option ℕ × Shared
  unfolding store_for
  store thread now s = store_for thread now (s.missed thread) s

  unfoldable pub move : Move → Shared → Option ℕ × Shared
  unfolding look store
  move (looks thread url) s = look thread url s
  move (stores thread now) s = store thread now s

  unfoldable pub moves : List Move → Shared → Shared
  unfolding move
  moves [] s = s
  moves (m ∷ ms) s = moves ms (move m s).1
