-- ===== src/RagSearch/Search.antt =====
-- py-processor/dashboard/rag_search.py: `_embed_query_cached` and `semantic_search`, and the route
-- of dashboard/app.py that calls it. `requests`, `lru_cache` and the writing of a float are
-- parameters; a score is in ten thousandths, and times are in ticks.
pub mod Gated
use webspider.Prelude.{
  ℕ, ◌+◌, ◌/◌, Bool, true, false, not, ◌&&◌, is_empty, List, [], ◌∷◌, ◌++◌, map, Option, none, some,
  Text, String, codes, if◌then◌else◌,
}
use webspider.Str.{strip}
use webspider.Outcome.{Outcome, ok, raise, Error, search_unavailable}
use webspider.Action.{Action, lift}
use webspider.Action.Borrowing.{borrow}
use webspider.Sql.{
  Param, text_param, number_param, Statement, Condition, join, sql_of, params_of, where_given,
}
use webspider.RagSearch.{Gate, allowed, limited, throttle}

-- A row of the search.
pub record ChunkRow : Type 0 where
  pub chunk_id : Text
  pub url : Text
  pub title : Option Text
  pub heading_path : Option (List Text)
  pub chunk_index : ℕ
  pub text : Text
  pub source_type : Option Text
  pub published_at : Option Text
  pub quality_score : Option ℕ
  pub score : ℕ

-- A chunk as it is returned.
pub record Hit : Type 0 where
  pub chunk_id : Text
  pub url : Text
  pub title : Option Text
  pub heading_path : List Text
  pub chunk_index : ℕ
  pub text : Text
  pub source_type : Option Text
  pub published_at : Option Text
  pub quality_score : Option ℕ
  pub score : ℕ

-- The embedding service, the pool and the database.
pub record Retrieval : Type 1 where
  pub World : Type 0
  pub Float : Type 0
  -- `f"{x:.6g}"`
  pub format : Float → Text
  -- the POST of a query and the embedding in its reply; any failure raises
  pub post : Text → Action World (List Float)
  -- `functools.lru_cache` of a function
  pub cached : (Text → Action World (List Float)) → Text → Action World (List Float)
  pub get_conn : Action World (Unit {0})
  pub put_conn : Action World (Unit {0})
  pub search : Statement → Action World (List ChunkRow)

-- What `config.py` says of the backend.
pub record Settings : Type 0 where
  pub api_base : Text
  pub api_key : Text
  pub model : Text
  -- `1.0 / RAG_QPS`
  pub period : ℕ

pub record Filters : Type 0 where
  pub source : Option Text
  pub min_quality : Option ℕ
  pub since : Option Text

abbrev source_is : Text → Condition
source_is source = record { sql = codes "source_type = %s"; params = text_param source ∷ [] }

abbrev since_is : Text → Condition
since_is since = record {
  sql = codes "published_at >= %s::timestamptz";
  params = text_param since ∷ [];
}

abbrev quality_is : ℕ → Condition
quality_is q = record { sql = codes "quality_score >= %s"; params = number_param q ∷ [] }

-- `if min_quality is not None:`
unfoldable pub where_quality : Option ℕ → List Condition → List Condition
where_quality none cs = cs
where_quality (some q) cs = quality_is q ∷ cs

unfoldable pub conditions : Filters → List Condition
unfolding where_given where_quality
conditions f =
    where_given source_is f.source (where_quality f.min_quality (where_given since_is f.since []))

abbrev search_sql : String
search_sql =
    "SELECT chunk_id, url, title, heading_path, chunk_index, text, source_type, published_at, quality_score, 1 - (embedding <=> %s::vector) AS score FROM article_chunks WHERE "

abbrev order_sql : String
order_sql = " ORDER BY embedding <=> %s::vector LIMIT %s"

unfoldable pub search_statement : Text → Filters → ℕ → Statement
unfolding conditions sql_of params_of join
search_statement literal f k = record {
  sql =
      codes search_sql
      ++ (join (codes " AND ") (codes "1=1" ∷ sql_of (conditions f)) ++ codes order_sql);
  params =
      text_param literal ∷ (params_of (conditions f) ++ text_param literal ∷ number_param k ∷ []);
}

-- `list(r[3] or [])`
abbrev path_of : Option (List Text) → List Text
path_of none = []
path_of (some path) = path

unfoldable pub hit_of : ChunkRow → Hit
hit_of r = record {
  chunk_id = r.chunk_id;
  url = r.url;
  title = r.title;
  heading_path = path_of r.heading_path;
  chunk_index = r.chunk_index;
  text = r.text;
  source_type = r.source_type;
  published_at = r.published_at;
  quality_score = r.quality_score;
  score = r.score;
}

-- What a search ends with; a RateLimited error has the time to wait.
pub data Searched : Type 0 where
  found : List Hit → Searched
  refused : ℕ → Searched
  failed : Error → Searched

-- `(query or "").strip()`
unfoldable pub query_text : Option Text → Text
unfolding strip
query_text none = strip []
query_text (some query) = strip query

abbrev pub searched_of : Outcome (List ChunkRow) → Searched
searched_of (ok rows) = found (map hit_of rows)
searched_of (raise e) = failed e

module _ (rt : Retrieval) (cfg : Settings) where
  unfoldable pub configured : Bool
  configured =
      not (is_empty cfg.api_base) && (not (is_empty cfg.api_key) && not (is_empty cfg.model))

  unfoldable pub embed_query : Text → Action rt.World (List rt.Float)
  unfolding configured lift
  embed_query query = if configured then rt.post query else lift (raise search_unavailable)

  -- "[" + ",".join(…) + "]"
  unfoldable pub literal_of : List rt.Float → Text
  unfolding join
  literal_of vec = codes "[" ++ (join (codes ",") (map rt.format vec) ++ codes "]")

  unfoldable pub retrieve : Text → Filters → ℕ → rt.World → Searched × rt.World
  unfolding borrow search_statement hit_of
  retrieve literal f k w =
      let (o, w') = borrow rt.get_conn rt.put_conn (rt.search (search_statement literal f k)) w in
      (searched_of o, w')

  -- What follows the gate.
  unfoldable pub retrieve_by :
      Filters → ℕ → Outcome (List rt.Float) → rt.World → Searched × rt.World
  unfolding retrieve literal_of
  retrieve_by f k (ok vec) w = retrieve (literal_of vec) f k w
  retrieve_by f k (raise e) w = (failed e, w)

  unfoldable pub past_gate : Text → Filters → ℕ → rt.World → Searched × rt.World
  unfolding embed_query retrieve_by
  past_gate query f k w = let (o, w') = rt.cached embed_query query w in retrieve_by f k o w'

  -- The result, the new `_next_ok[0]`, and the world.
  unfoldable pub behind_gate : Gate → Text → Filters → ℕ → ℕ → rt.World → Searched × ℕ × rt.World
  unfolding past_gate
  behind_gate (limited wait) query f k next_ok w = (refused wait, next_ok, w)
  behind_gate (allowed next) query f k next_ok w =
      let (r, w') = past_gate query f k w in (r, next, w')

  unfoldable pub search_for : Text → Filters → ℕ → ℕ → ℕ → rt.World → Searched × ℕ × rt.World
  unfolding behind_gate throttle
  search_for [] f k now next_ok w = (found [], next_ok, w)
  search_for (c ∷ query) f k now next_ok w =
      behind_gate (throttle cfg.period next_ok now) (c ∷ query) f k next_ok w

  -- `semantic_search` at the time `now`.
  unfoldable pub semantic_search :
      Option Text → Filters → ℕ → ℕ → ℕ → rt.World → Searched × ℕ × rt.World
  unfolding search_for query_text
  semantic_search query f k now next_ok w = search_for (query_text query) f k now next_ok w

-- The answer of `api_search`: the hits, 429 with the Retry-After of `ticks` ticks for each second,
-- or another status.
pub data Answer : Type 0 where
  hits : List Hit → Answer
  too_many : ℕ → Answer
  status : ℕ → Answer

unfoldable pub status_of_error : Error → ℕ
status_of_error search_unavailable = 503
status_of_error e = 500

unfoldable pub api_search : ℕ → Searched → Answer
unfolding status_of_error
api_search ticks (found rows) = hits rows
api_search ticks (refused wait) = too_many (wait / ticks + 1)
api_search ticks (failed e) = status (status_of_error e)
