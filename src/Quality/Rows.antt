-- ===== src/Quality/Rows.antt =====
-- The batch pipeline with the quality gate of quality.py as its `assess` and `strip_code`.
use webspider.Prelude.{ℕ, ◌≡◌, ◌≢◌, ◌≤◌, ◌⊎◌, Bool, false, List, [], Text, All, All-mono}
use webspider.Config.{Config}
use webspider.Dedupe.{Hashing}
use webspider.Outcome.{ok}
use webspider.Services.{Services, Message, Row}
use webspider.Services.Run.{State}
use webspider.Regex.{is_found}
use webspider.Quality.{spam, code_chars, strip_code}
use webspider.Quality.Gate.{Limits, assess, verdict}
use webspider.Quality.Decided.{Passes, assess-keep}
use webspider.Quality.Scored.{assess-score}
use webspider.Pipeline.{Libraries}
use webspider.Pipeline.Batch.{Gathered, gather}
use webspider.Pipeline.Batch.Kept.{RowKept, gather-Clean}

module _ (is_word : ℕ → Bool) (lower : Text → Text) (limits : Limits) where
  -- The names that main.py imports from quality.py.
  unfoldable pub with_gate : Libraries → Libraries
  unfolding assess verdict strip_code
  with_gate lib = record lib {
    assess = λ text. verdict (assess is_word lower limits text);
    strip_code = strip_code is_word;
  }

  -- A text that the gate keeps, with a score of at most 1.0.
  abbrev pub Gated : Row → Type 0
  Gated row =
      (row.content ≢ [])
      × (is_found is_word spam row.content ≡ false)
      × ((limits.min_code_chars ≤ code_chars is_word row.content)
          ⊎ Passes is_word lower limits row.content)
      × (row.quality_score ≤ 1000)

  RowKept-Gated :
      (cfg : Config) (lib : Libraries) (row : Row) → RowKept cfg (with_gate lib) row → Gated row
  unfolding with_gate verdict
  RowKept-Gated cfg lib row (kept, score, _, _) =
      let (full, clean, good) = (assess-keep is_word lower limits row.content).0 kept in
      (full, clean, good, rw score (assess-score is_word lower limits row.content))

  -- With the gate of quality.py behind it, phases 1 to 3 return only rows whose text is not empty,
  -- has no promotional phrase, has enough code or passes every other gate, and whose score is at
  -- most 1.0.
  pub gather-Gated :
      (sv : Services) (hs : Hashing) (cfg : Config) (lib : Libraries) (messages : List Message)
      (s : State sv) (g : Gathered)
      → (gather sv hs cfg (with_gate lib) messages s).result ≡ ok g
      → All Gated g.rows
  gather-Gated sv hs cfg lib messages s g r =
      All-mono (RowKept cfg (with_gate lib)) Gated (RowKept-Gated cfg lib) g.rows
        (gather-Clean sv hs cfg (with_gate lib) messages s g r)
