-- ===== src/Quality/Gate.antt =====
-- `assess` of py-processor/quality.py: the gates in their order. The limits are those of config.py.
use webspider.Prelude.{
  ℕ, ◌*◌, ltb, leb, Bool, true, false, ◌&&◌, [], ◌∷◌, Option, none, some, Text, codes, length,
  if◌then◌else◌,
}
use webspider.Regex.{is_found, some_of}
use webspider.Quality.{
  Ratio, literal_by, ignore_case, any_of, spam, help, code_chars, word_count, link_ratio,
  unique_word_ratio, thousandths, quality_ratio,
}
use webspider.Str.{is_space}
use webspider.Pipeline.{Verdict}

pub record Limits : Type 0 where
  pub min_content_len : ℕ
  pub min_code_chars : ℕ
  pub max_link_ratio : Ratio
  pub min_unique_ratio : Ratio
  pub min_words_no_code : ℕ

abbrev pub default_limits : Limits
default_limits = record {
  min_content_len = 100;
  min_code_chars = 80;
  max_link_ratio = record { over = 30; under = 100 };
  min_unique_ratio = record { over = 25; under = 100 };
  min_words_no_code = 50;
}

-- `x < y`
abbrev pub less : Ratio → Ratio → Bool
less x y = ltb (x.over * y.under) (y.over * x.under)

-- `meta`, with the ratios and the score in thousandths.
pub record Meta : Type 0 where
  pub len : ℕ
  pub code_chars : ℕ
  pub link_ratio : ℕ
  pub unique_ratio : ℕ
  pub quality_score : ℕ

pub record Assessed : Type 0 where
  pub keep : Bool
  pub reason : Text
  -- `none` is the empty dictionary
  pub meta : Option Meta

abbrev kept : Text → Meta → Assessed
kept reason meta = record { keep = true; reason = reason; meta = some meta }

abbrev dropped : Text → Meta → Assessed
dropped reason meta = record { keep = false; reason = reason; meta = some meta }

module _ (is_word : ℕ → Bool) (lower : Text → Text) where
  abbrev pub is_spam : Text → Bool
  is_spam text = is_found is_word spam text

  abbrev pub is_help : Text → Bool
  is_help text = is_found is_word help text

  unfoldable pub meta_of : Text → Meta
  unfolding code_chars link_ratio unique_word_ratio thousandths quality_ratio
  meta_of text = record {
    len = length text;
    code_chars = code_chars is_word text;
    link_ratio = thousandths (link_ratio is_word text);
    unique_ratio = thousandths (unique_word_ratio is_word lower text);
    quality_score = thousandths (
        quality_ratio (length text) (code_chars is_word text) (link_ratio is_word text)
          (unique_word_ratio is_word lower text));
  }

  -- The gates of a text that is not empty.
  unfoldable pub gates : Limits → Text → Assessed
  unfolding meta_of is_found literal_by ignore_case any_of some_of is_space word_count
  gates limits text =
      let words = word_count is_word text in
      if is_spam text
      then dropped (codes "spam") (meta_of text)
      else if leb limits.min_code_chars (code_chars is_word text)
      then kept (codes "code_rich") (meta_of text)
      else if less limits.max_link_ratio (link_ratio is_word text)
      then dropped (codes "link_dump") (meta_of text)
      else if less (unique_word_ratio is_word lower text) limits.min_unique_ratio
      then dropped (codes "low_diversity") (meta_of text)
      else if ltb (length text) limits.min_content_len
      then dropped (codes "too_short") (meta_of text)
      else if ltb words limits.min_words_no_code
      then dropped (codes "thin_prose") (meta_of text)
      else if is_help text && ltb words (limits.min_words_no_code * 2)
      then dropped (codes "help_request") (meta_of text)
      else kept (codes "ok") (meta_of text)

  unfoldable pub assess : Limits → Text → Assessed
  unfolding gates
  assess limits [] = record { keep = false; reason = codes "empty"; meta = none }
  assess limits (c ∷ text) = gates limits (c ∷ text)

-- `meta.get("quality_score", 0.0)`
abbrev pub score_of : Option Meta → ℕ
score_of none = 0
score_of (some meta) = meta.quality_score

-- What `process_batch` uses of the result.
unfoldable pub verdict : Assessed → Verdict
verdict a = record { keep = a.keep; reason = a.reason; quality_score = score_of a.meta }
