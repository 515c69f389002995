-- ===== src/Tests/Hosts.antt =====
-- The host table and the maps of a concurrent fetch at concrete inputs.
use webspider.Prelude.{
  ℕ, ◌*◌, ◌≡◌, refl, List, [], ◌∷◌, Option, some, none, Text, codes, text_eq, text_elem, Bool, true,
  false, ◌==◌, length, if◌then◌else◌,
}
use webspider.Outcome.{Outcome, ok}
use webspider.Str.{parse_int}
use webspider.Dedupe.{ℤ, pos}
use webspider.Fetcher.Retry.{FetchResult, text, failed, gone}
use webspider.Fetcher.Many.{Maps, fetch_many}
use webspider.Fetcher.Many.Lookups.{page_at, told, body_of, reason_of, fetch_many-told, urls_of}
use webspider.Fetcher.Hosts.{parse_host_overrides, Shared, Move, looks, stores, look, moves}
use webspider.Fetcher.Hosts.Kept.{Settled, look-moves}

abbrev as_rate : Option ℤ → Option ℕ
as_rate (some (pos n)) = some n
as_rate _ = none

abbrev rate_of : Text → Option ℕ
rate_of s = as_rate (parse_int s)

-- A part without a rate, one with a bad rate, and white space.
overrides_run :
    parse_host_overrides (λ s. s) rate_of (codes "dev.to:3, a.example : 2,bad,c.example:x")
    ≡ (codes "dev.to", 3) ∷ (codes "a.example", 2) ∷ []
unfolding parse_host_overrides parse_int text_eq
overrides_run = refl

abbrev futures : List (Text × Outcome FetchResult)
futures =
    (codes "b", ok (gone 404)) ∷ (codes "a", ok (text (codes "page"))) ∷ (codes "c", ok failed) ∷ []

abbrev fetched : Maps
fetched = record {
  results = (codes "a", codes "page") ∷ [];
  permanent = (codes "b", codes "HTTP 404") ∷ [];
}

maps_run : fetch_many futures ≡ ok fetched
unfolding fetch_many
maps_run = refl

fetch_many-told_example :
    (page_at (codes "a") fetched.results ≡ told body_of (codes "a") futures)
    × (page_at (codes "a") fetched.permanent ≡ told reason_of (codes "a") futures)
unfolding text_elem urls_of
fetch_many-told_example =
    fetch_many-told futures fetched (codes "a") (refl, (refl, (refl, tt))) maps_run

abbrev host_of : Text → Text
host_of url = codes "dev.to"

abbrev untouched : Shared
untouched = record { table = []; made = []; missed = λ t. none }

-- The calls of two threads, and what each returns.
abbrev run : List Move → Shared → Shared
run = moves (λ s. s) host_of (λ n. n * 10) [] 2

-- Both find no bucket: the second to store replaces the bucket that the first has returned.
abbrev raced : Shared
raced = run (looks 0 (codes "u") ∷ looks 1 (codes "v") ∷ stores 0 5 ∷ stores 1 6 ∷ []) untouched

race : (raced.table ≡ (codes "dev.to", 1) ∷ []) × (length raced.made ≡ 2)
unfolding moves text_eq
race = (refl, refl)

raced-Settled : Settled (codes "dev.to") 1 raced
unfolding moves text_eq
raced-Settled = record { there = refl; no_miss = λ t h. by (t == 1) (t == 0) h }
  where
    by :
        (a b : Bool) (h : Text)
        → (if a
            then none
            else if b
            then none
            else if a
            then some (codes "dev.to")
            else if b
            then some (codes "dev.to")
            else none)
          ≡ some h
        → text_eq (codes "dev.to") h ≡ false
    by true b h e = cc
    by false true h e = cc
    by false false h e = cc

-- Another thread makes a call for the same host and one comes back to it.
look-moves_example :
    look (λ s. s) host_of (λ n. n * 10) [] 2 3 (codes "w") (run (looks 2 (codes "x") ∷ []) raced)
    ≡ (some 1, run (looks 2 (codes "x") ∷ []) raced)
look-moves_example =
    look-moves (λ s. s) host_of (λ n. n * 10) [] 2 b'd' (codes "ev.to") 1 (looks 2 (codes "x") ∷ [])
      raced 3 (codes "w") raced-Settled refl
