-- ===== src/Dashboard/Health/Series.antt =====
-- About the changes that the activity chart shows.
use webspider.Prelude.{ℕ, ◌+◌, ◌≤◌, ◌≡◌, refl, arith, List, [], ◌∷◌, Option, some, length}
use webspider.Dashboard.{Snapshot}
use webspider.Dashboard.Health.{Point, point_of, series_from, series_of}

-- The sum of a number of each point.
abbrev sum_of : (Point → ℕ) → List Point → ℕ
sum_of f [] = 0
sum_of f (p ∷ ps) = f p + sum_of f ps

-- A counter of the rows that starts at `low` and never falls, and its last value.
abbrev Rising : (Snapshot → ℕ) → ℕ → List Snapshot → Type 0
Rising f low [] = Unit
Rising f low (r ∷ rows) = (low ≤ f r) × Rising f (f r) rows

abbrev last_of : (Snapshot → ℕ) → ℕ → List Snapshot → ℕ
last_of f low [] = low
last_of f low (r ∷ rows) = last_of f (f r) rows

abbrev produced_of : Snapshot → ℕ
produced_of r = r.produced

abbrev stored_of : Snapshot → ℕ
stored_of r = r.stored

series_from-sum :
    (p s : ℕ) (rows : List Snapshot)
    → Rising produced_of p rows
    → Rising stored_of s rows
    → (p + sum_of (λ x. x.produced_delta) (series_from (some p) (some s) rows)
        ≡ last_of produced_of p rows)
      × (s + sum_of (λ x. x.stored_delta) (series_from (some p) (some s) rows)
          ≡ last_of stored_of s rows)
unfolding series_from point_of
series_from-sum p s [] hp hs = (omega arith, omega arith)
series_from-sum p s (r ∷ rows) hp hs =
    let (ip, is_) = series_from-sum r.produced r.stored rows hp.1 hs.1 in
    let lp = hp.0 in let ls = hs.0 in (omega (arith, ip, lp), omega (arith, is_, ls))

series_from-length :
    (p s : Option ℕ) (rows : List Snapshot) → length (series_from p s rows) ≡ length rows
unfolding series_from
series_from-length p s [] = refl
series_from-length p s (r ∷ rows) =
    omega (arith, series_from-length (some r.produced) (some r.stored) rows)

-- For samples that never fall, the chart has a point for each, the first one without a change, and
-- the changes add up: first value and changes make the last value, for both counters.
series_of-sum :
    (r : Snapshot) (rows : List Snapshot)
    → Rising produced_of r.produced rows
    → Rising stored_of r.stored rows
    → (length (series_of (r ∷ rows)) ≡ length (r ∷ rows))
      × (r.produced + sum_of (λ x. x.produced_delta) (series_of (r ∷ rows))
          ≡ last_of produced_of r.produced rows)
      × (r.stored + sum_of (λ x. x.stored_delta) (series_of (r ∷ rows))
          ≡ last_of stored_of r.stored rows)
unfolding series_of series_from point_of
series_of-sum r rows hp hs =
    let (p, s) = series_from-sum r.produced r.stored rows hp hs in
    (
      omega (arith, series_from-length (some r.produced) (some r.stored) rows),
      omega (arith, p),
      omega (arith, s),
    )
