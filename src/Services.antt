-- ===== src/Services.antt =====
-- The services behind the processor: Redis (redis-py, decode_responses=True), PostgreSQL
-- (psycopg2), the page fetcher and the clock. None of them is code of the repository, so they are
-- a parameter: a world, and for each call what it answers and the world that it leaves. A call
-- that raises may still have changed the world.
pub mod Run
pub mod Emits
pub mod Invert
pub mod Returns
pub mod Seen
pub mod Keeps
use webspider.Prelude.{ℕ, Bool, List, Option, Text}
use webspider.Outcome.{Outcome, Error}

-- A command queued on `r.pipeline(transaction=False)`.
pub data Command : Type 0 where
  sadd : Text → Text → Command
  expire : Text → ℕ → Command
  incrby : Text → ℕ → Command
  hincrby : Text → Text → ℕ → Command

-- The columns of `_INSERT` in store.py, in order. `quality_score` is the scaled score of the gate.
pub record Row : Type 0 where
  pub url : Text
  pub url_hash : Text
  pub title : Option Text
  pub content : Text
  pub author : Option Text
  pub published_at : Option Text
  pub tags : Option (List Text)
  pub source_type : Text
  pub language : Text
  pub content_hash : ℕ
  pub quality_score : ℕ

-- A message of the stream: its id and its `article` field.
abbrev pub Message : Type 0
Message = Text × Option Text

-- The two maps of `fetch_many`: pages by URL, and the URLs that are gone for good.
pub record Fetched : Type 0 where
  pub pages : List (Text × Text)
  pub gone : List Text

-- A call as it is issued, for the order of effects.
pub data Call : Type 0 where
  smembers : Text → Call
  exists : Text → Call
  set_key : Text → Call
  execute : List Command → Call
  eval : Text → List (Text × Text) → Call
  incr : Text → ℕ → Call
  xack : List Text → Call
  xadd : Text → List (Text × Text) → Call
  xdel : Text → Text → Call
  xrange : Text → ℕ → Call
  xlen : Text → Call
  xread : Call
  xpending : Call
  xgroup_create : Call
  get_conn : Call
  rollback : Call
  close_conn : Call
  fetch : List Text → Call
  insert : List Row → Call
  commit : Call
  select : Call

pub record Services : Type 1 where
  pub World : Type 0
  pub smembers : Text → World → Outcome (List Text) × World
  pub exists : Text → World → Outcome Bool × World
  pub set_key : Text → Text → World → Outcome (Unit {0}) × World
  -- `pipe.execute()`: the queued commands in order
  pub execute : List Command → World → Outcome (Unit {0}) × World
  -- SISMEMBER, SADD and XADD (stream, MAXLEN ~, fields) inside a script
  pub sismember : Text → Text → World → Bool
  pub script_sadd : Text → Text → World → World
  pub script_xadd : Text → ℕ → List (Text × Text) → World → World
  -- EVAL of a script with the given effect: it runs atomically, or the call raises
  pub eval : (World → ℕ × World) → World → Outcome ℕ × World
  pub incr : Text → ℕ → World → Outcome (Unit {0}) × World
  pub xack : List Text → World → Outcome (Unit {0}) × World
  pub xadd : Text → List (Text × Text) → World → Outcome (Unit {0}) × World
  pub xdel : Text → Text → World → Outcome (Unit {0}) × World
  -- XPENDING of the consumer, and XREADGROUP from id 0
  pub xpending : ℕ → World → Outcome (List Text) × World
  pub xread_pending : ℕ → World → Outcome (Option (List Message)) × World
  -- XREADGROUP of new messages; `none` is an answer that Python holds for false
  pub xread_new : ℕ → World → Outcome (Option (List Message)) × World
  -- XGROUP CREATE: `false` is a BUSYGROUP error, any other is raised
  pub xgroup_create : World → Outcome Bool × World
  -- the connection pool of store.py
  pub get_conn : World → Outcome (Unit {0}) × World
  pub rollback : World → Outcome (Unit {0}) × World
  pub close_conn : World → Outcome (Unit {0}) × World
  pub xrange : Text → ℕ → World → Outcome (List (Text × List (Text × Text))) × World
  pub xlen : Text → World → Outcome ℕ × World
  pub fetch : List Text → World → Outcome Fetched × World
  -- psycopg2's `execute_values` with INSERT ... ON CONFLICT (url_hash) DO NOTHING in pages of 200
  -- rows, and `cur.rowcount` behind it
  pub insert : List Row → World → Outcome ℕ × World
  pub commit : World → Outcome (Unit {0}) × World
  -- `SELECT content_hash FROM articles WHERE content_hash IS NOT NULL`
  pub select_hashes : World → Outcome (List (Option ℕ)) × World
