-- ===== src/Tests/World.antt =====
-- Services over sets in memory and a database that is up or down, with libraries to run on them.
use webspider.Prelude.{
  Bool, true, false, ◌&&◌, ◌||◌, List, [], ◌∷◌, ◌++◌, Option, none, some, Text, codes, text_eq,
  length, if◌then◌else◌,
}
use webspider.Outcome.{Outcome, ok, raise, database_error}
use webspider.Config.{Config, defaults}
use webspider.Dedupe.{Hashing}
use webspider.Services.{Services, Command, sadd, expire, incrby, hincrby, Message}
use webspider.Services.Run.{State}
use webspider.Pipeline.{Article, Json, object, Libraries}

-- The pairs of a key and a member of its set, and whether the database answers.
pub record Memory : Type 0 where
  pub sets : List (Text × Text)
  pub db_up : Bool

unfoldable pub members_of : Text → List (Text × Text) → List Text
members_of k [] = []
members_of k ((j, v) ∷ sets) = if text_eq k j then v ∷ members_of k sets else members_of k sets

unfoldable pub holds : List (Text × Text) → Text → Text → Bool
holds [] k v = false
holds ((j, u) ∷ sets) k v = (text_eq k j && text_eq v u) || holds sets k v

unfoldable pub additions : List Command → List (Text × Text)
additions [] = []
additions (sadd k v ∷ cs) = (k, v) ∷ additions cs
additions (expire k t ∷ cs) = additions cs
additions (incrby k n ∷ cs) = additions cs
additions (hincrby k f n ∷ cs) = additions cs

abbrev if_up {ℓ} : {A : Type ℓ} → A → Memory → Outcome A × Memory
if_up a w = (if w.db_up then ok a else raise database_error, w)

-- Two entries of the dead-letter stream, one of them without an article.
abbrev pub parked : List (Text × List (Text × Text))
parked =
    (codes "5-0", (codes "url", codes "https://a.example/2") ∷ (codes "article", codes "2") ∷ [])
    ∷ (codes "5-1", (codes "url", codes "https://a.example/3") ∷ [])
    ∷ []

abbrev pub memory : Services
memory = record {
  World = Memory;
  smembers = λ k w. (ok (members_of k w.sets), w);
  exists = λ k w. (ok false, w);
  set_key = λ k v w. (ok tt, w);
  execute = λ cs w. (ok tt, record w { sets = additions cs ++ w.sets });
  sismember = λ k v w. holds w.sets k v;
  script_sadd = λ k v w. record w { sets = (k, v) ∷ w.sets };
  script_xadd = λ stream n fields w. w;
  eval = λ f w. let (n, w') = f w in (ok n, w');
  incr = λ k n w. (ok tt, w);
  xack = λ ids w. (ok tt, w);
  xadd = λ stream fields w. (ok tt, w);
  xdel = λ stream id w. (ok tt, w);
  xpending = λ n w. (ok [], w);
  xread_pending = λ n w. (ok none, w);
  xread_new = λ n w. (ok none, w);
  xgroup_create = λ w. (ok true, w);
  get_conn = λ w. (ok tt, w);
  rollback = λ w. (ok tt, w);
  close_conn = λ w. (ok tt, w);
  xrange = λ stream n w. (ok parked, w);
  xlen = λ stream w. (ok 0, w);
  fetch = λ urls w. (ok (record { pages = []; gone = [] }), w);
  insert = λ rows w. if_up (length rows) w;
  commit = if_up tt;
  select_hashes = if_up [];
}

-- A hash that keeps the length of the token.
abbrev pub hashing : Hashing
hashing = record { lower = λ s. s; blake2b = λ s. length s ∷ [] }

-- Eight bits in four bands, so that the tests are quick to run.
abbrev pub small : Config
small = record defaults { simhash_bits = 8 }

abbrev pub article : Article
article = record {
  url = some (codes "https://a.example/1");
  title = some (codes "A");
  content_md = some (codes "an inline text");
  author = none;
  published_at = none;
  tags = none;
  source_type = some (codes "stackexchange");
}

-- An article whose page is still to be fetched.
abbrev pub page_article : Article
page_article = record article { content_md = none }

-- The payload `1` is the article above, `2` the one to fetch, `x` is not JSON.
abbrev loads : Text → Option Json
loads s =
    if text_eq s (codes "1")
    then some (object article)
    else if text_eq s (codes "2")
    then some (object page_article)
    else none

abbrev pub libraries : Libraries
libraries = record {
  loads = loads;
  dumps = λ a. codes "{}";
  extract = λ html. some html;
  detect = λ s. some (codes "en");
  sha256_hex = λ s. s;
  assess = λ s. record { keep = true; reason = codes "ok"; quality_score = 500 };
  strip_code = λ s. s;
}

abbrev pub up : State memory
up = record { world = record { sets = []; db_up = true }; seen = [] }

abbrev pub down : State memory
down = record { world = record { sets = []; db_up = false }; seen = [] }

-- A message with the article, one whose page the fetcher lacks, and one that is not JSON.
abbrev pub batch : List Message
batch =
    (codes "1-0", some (codes "1"))
    ∷ (codes "1-1", some (codes "2"))
    ∷ (codes "1-2", some (codes "x"))
    ∷ []
