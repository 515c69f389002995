-- ===== src/Pipeline.antt =====
-- py-processor/main.py: one batch of the stream, from its messages to the acknowledgement.
-- `json`, `trafilatura`, `langdetect` and `hashlib.sha256` are parameters; the quality gate and the
-- page fetcher are reached through their interfaces.
pub mod Counts
pub mod DeadLetter
pub mod Batch
pub mod Consumer
use webspider.Prelude.{ℕ, Bool, List, Option, Text}

-- What the code reads of a message's JSON object by `article.get`: `none` is a key that is absent. A
-- null can stand for the tags, which Go writes for a nil slice, and is `some none` there; of the
-- strings of the crawler's struct none is null, and a null title, content, author or date, for which
-- `article.get` has no default, is `none` too.
pub record Article : Type 0 where
  pub url : Option Text
  pub title : Option Text
  pub content_md : Option Text
  pub author : Option Text
  pub published_at : Option Text
  pub tags : Option (Option (List Text))
  pub source_type : Option Text

-- The value of `json.loads`: an object, or a value that has no `get`.
pub data Json : Type 0 where
  object : Article → Json
  other : Json

-- `assess`: the decision, its reason, and the score in thousandths.
pub record Verdict : Type 0 where
  pub keep : Bool
  pub reason : Text
  pub quality_score : ℕ

pub record Libraries : Type 0 where
  -- `none` is a JSONDecodeError
  pub loads : Text → Option Json
  pub dumps : Article → Text
  pub extract : Text → Option Text
  -- `none` is a LangDetectException
  pub detect : Text → Option Text
  pub sha256_hex : Text → Text
  -- quality.py
  pub assess : Text → Verdict
  pub strip_code : Text → Text
