-- ===== src/Probe.antt =====
-- py-processor/quality_probe.py: the quality gate over the stored articles, and what it counts.
use webspider.Prelude.{ℕ, zero, suc, ◌+◌, ◌≡◌, Bool, List, [], ◌∷◌, Text, codes, if◌then◌else◌}
use webspider.Sql.{Statement, number_param}
use webspider.Pipeline.Counts.{Counts, bump, total}
use webspider.Quality.Gate.{Limits, Assessed, assess}

-- `reasons`, `kept` and `total`.
pub record Histogram : Type 0 where
  pub reasons : Counts
  pub kept : ℕ
  pub scanned : ℕ

-- A limit of 0 is none.
unfoldable pub probe_statement : ℕ → Statement
probe_statement zero = record {
  sql = codes "SELECT content_md FROM articles WHERE content_md IS NOT NULL";
  params = [];
}
probe_statement (suc limit) = record {
  sql =
      codes
        "SELECT content_md FROM articles WHERE content_md IS NOT NULL ORDER BY id DESC LIMIT %s";
  params = number_param (suc limit) ∷ [];
}

unfoldable pub count_one : Assessed → Histogram → Histogram
count_one a h =
    if a.keep
    then record h { kept = suc h.kept; scanned = suc h.scanned }
    else record h { reasons = bump a.reason h.reasons; scanned = suc h.scanned }

module _ (is_word : ℕ → Bool) (lower : Text → Text) (limits : Limits) where
  unfoldable pub probe_from : Histogram → List Text → Histogram
  unfolding count_one assess
  probe_from h [] = h
  probe_from h (content ∷ rows) =
      probe_from (count_one (assess is_word lower limits content) h) rows

  -- The loop of `probe` over the rows.
  unfoldable pub probe : List Text → Histogram
  unfolding probe_from
  probe rows = probe_from (record { reasons = []; kept = 0; scanned = 0 }) rows

  abbrev Balanced : ℕ → Histogram → Type 0
  Balanced n h = (h.scanned ≡ n) × (h.kept + total h.reasons ≡ n)
