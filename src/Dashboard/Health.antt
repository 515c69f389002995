-- ===== src/Dashboard/Health.antt =====
-- `_stale_thresholds`, `health` and `_with_prev` of py-processor/dashboard/queries.py.
-- `json.loads` and `datetime` are parameters; an age is in microseconds.
pub mod Runs
pub mod Series
use webspider.Prelude.{
  ℕ, ◌+◌, ◌-◌, ◌*◌, min, max, leb, Bool, true, false, List, [], ◌∷◌, map, Option, none, some, Text,
  codes, ltb, ◌==◌, if◌then◌else◌,
}
use webspider.Dedupe.{ℤ, pos, negsuc}
use webspider.Str.{strip, parse_int, negate}
use webspider.Quality.{round_ratio}
use webspider.Fetcher.Hosts.{split_on, rpartition, set_key, get_key}
use webspider.Outcome.{Outcome, ok, raise, type_error, attribute_error}
use webspider.Action.{Action, pure, lift, ◌>>=◌}
use webspider.Sql.{Statement, number_param}
use webspider.Pipeline.Counts.{Counts}
use webspider.Monitor.{int_or_zero, int_values, pending_of}
use webspider.Dashboard.Metrics.{Redis}
use webspider.Dashboard.{Snapshot, Database, connected}

-- `out[name] = int(mins)`, where `int` does not raise.
unfoldable pub set_minutes : Text → Option ℤ → List (Text × ℤ) → List (Text × ℤ)
unfolding set_key
set_minutes name none d = d
set_minutes name (some mins) d = set_key name mins d

unfoldable pub add_threshold : Option (Text × Text) → List (Text × ℤ) → List (Text × ℤ)
unfolding set_minutes parse_int
add_threshold none d = d
add_threshold (some (name, mins)) d = set_minutes name (parse_int mins) d

unfoldable pub thresholds_from : List (Text × ℤ) → List Text → List (Text × ℤ)
unfolding add_threshold rpartition strip
thresholds_from d [] = d
thresholds_from d (part ∷ parts) =
    thresholds_from (add_threshold (rpartition b':' (strip part)) d) parts

-- `_stale_thresholds()`, of the value of STALE_THRESHOLDS.
unfoldable pub stale_thresholds : Text → List (Text × ℤ)
unfolding thresholds_from split_on
stale_thresholds spec = thresholds_from [] (split_on b',' spec)

-- What the code reads of a run's JSON object.
pub record RunRecord : Type 0 where
  pub finished_at : Option Text
  pub pages : Option ℕ
  pub published : Option ℕ
  pub failed_pages : Option ℕ
  pub publish_errors : Option ℕ
  pub duration_ms : Option ℕ

-- `json.loads`: a JSONDecodeError, a value without `get`, or an object.
pub data Loaded : Type 0 where
  malformed : Loaded
  no_object : Loaded
  object : RunRecord → Loaded

-- `now - datetime.fromisoformat(finished)`: a ValueError, the TypeError of a date without a time
-- zone, or the age.
pub data Age : Type 0 where
  no_date : Age
  no_zone : Age
  age : ℤ → Age

pub record Run : Type 0 where
  pub source : Text
  pub last_run_at : Option Text
  -- in tenths
  pub age_minutes : Option ℤ
  pub stale_after_minutes : ℤ
  pub status : Text
  pub record_of : RunRecord

abbrev minute : ℕ
minute = 60000000

-- `age <= limit` of an age and a number of minutes.
unfoldable pub within : ℤ → ℤ → Bool
within (pos a) (pos m) = leb a (m * minute)
within (pos a) (negsuc m) = false
within (negsuc a) (pos m) = true
within (negsuc a) (negsuc m) = leb ((m + 1) * minute) (a + 1)

-- `round(age_min, 1)`
unfoldable pub tenths : ℤ → ℤ
unfolding round_ratio
tenths (pos a) = pos (round_ratio (a * 10) minute)
tenths (negsuc a) = negate (round_ratio ((a + 1) * 10) minute)

unfoldable pub status_of : Option ℤ → ℤ → Text
unfolding within
status_of none limit = codes "unknown"
status_of (some a) limit = if within a limit then codes "ok" else codes "stale"

-- `thresholds.get(src, 180)`
unfoldable pub limit_of : List (Text × ℤ) → Text → ℤ
unfolding get_key
limit_of thresholds src = elim (get_key src thresholds) [ none ↦ pos 180 | some m ↦ m ]

abbrev map_tenths : Option ℤ → Option ℤ
map_tenths none = none
map_tenths (some a) = some (tenths a)

unfoldable pub run_of : List (Text × ℤ) → Text → RunRecord → Option ℤ → Run
unfolding status_of limit_of tenths
run_of thresholds src rec age_min = record {
  source = src;
  last_run_at = rec.finished_at;
  age_minutes = map_tenths age_min;
  stale_after_minutes = limit_of thresholds src;
  status = status_of age_min (limit_of thresholds src);
  record_of = rec;
}

unfoldable pub add_run : Run → Outcome (List Run) → Outcome (List Run)
add_run run (ok runs) = ok (run ∷ runs)
add_run run (raise e) = raise e

-- `a <= b` of texts.
unfoldable pub text_leb : Text → Text → Bool
text_leb [] t = true
text_leb (c ∷ s) [] = false
text_leb (c ∷ s) (d ∷ t) = if c == d then text_leb s t else ltb c d

-- `runs.sort(key=lambda x: x["source"])`
unfoldable pub insert_run : Run → List Run → List Run
unfolding text_leb
insert_run run [] = run ∷ []
insert_run run (r ∷ rs) =
    if text_leb run.source r.source then run ∷ r ∷ rs else r ∷ insert_run run rs

unfoldable pub sort_runs : List Run → List Run
unfolding insert_run
sort_runs [] = []
sort_runs (r ∷ rs) = insert_run r (sort_runs rs)

-- A point of the chart.
pub record Point : Type 0 where
  pub taken_at : Text
  pub produced_delta : ℕ
  pub stored_delta : ℕ
  pub pending : ℕ
  pub dlq : ℕ
  pub by_source : Option Text

-- `prev if prev is not None else own`
abbrev pub previous : Option ℕ → ℕ → ℕ
previous none own = own
previous (some n) own = n

unfoldable pub point_of : Snapshot → ℕ → ℕ → Point
point_of r prev_produced prev_stored = record {
  taken_at = r.taken_at;
  produced_delta = r.produced - prev_produced;
  stored_delta = r.stored - prev_stored;
  pending = r.pending;
  dlq = r.dlq;
  by_source = r.by_source;
}

-- The points of the rows behind `_with_prev`.
unfoldable pub series_from : Option ℕ → Option ℕ → List Snapshot → List Point
unfolding point_of
series_from prev_p prev_s [] = []
series_from prev_p prev_s (r ∷ rows) =
    point_of r (previous prev_p r.produced) (previous prev_s r.stored)
    ∷ series_from (some r.produced) (some r.stored) rows

unfoldable pub series_of : List Snapshot → List Point
unfolding series_from
series_of rows = series_from none none rows

-- `max(1, min(hours, 168))`
unfoldable pub clamp_hours : ℤ → ℕ
clamp_hours (pos n) = max 1 (min n 168)
clamp_hours (negsuc n) = 1

abbrev snapshot_statement : ℕ → Statement
snapshot_statement hours = record {
  sql =
      codes
        "SELECT taken_at, produced, stored, pending, dlq, by_source FROM pipeline_snapshots WHERE taken_at >= now() - (%s || ' hours')::interval ORDER BY taken_at";
  params = number_param hours ∷ [];
}

pub record Activity : Type 0 where
  pub runs : List Run
  pub series : List Point

module _ (loads : Text → Loaded) (thresholds : List (Text × ℤ)) (since : Text → Age) where
  -- The age of a run that names its end; the TypeError goes on.
  unfoldable pub age_of : Option Text → Outcome (Option ℤ)
  age_of none = ok none
  age_of (some []) = ok none
  age_of (some (c ∷ s)) = elim (since (c ∷ s)) [
    | no_date ↦ ok none
    | no_zone ↦ raise type_error
    | age a ↦ ok (some a)
  ]

  unfoldable pub with_age :
      Text → RunRecord → Outcome (List Run) → Outcome (Option ℤ) → Outcome (List Run)
  unfolding add_run run_of
  with_age src rec rest (ok age_min) = add_run (run_of thresholds src rec age_min) rest
  with_age src rec rest (raise e) = raise e

  -- The loop over the heartbeats.
  unfoldable pub runs_of : List (Text × Text) → Outcome (List Run)
  unfolding with_age age_of
  runs_of [] = ok []
  runs_of ((src, raw) ∷ entries) =
      let rest = runs_of entries in
      elim (loads raw) [
        | malformed ↦ rest
        | no_object ↦ raise attribute_error
        | object rec ↦ with_age src rec rest (age_of rec.finished_at)
      ]

-- `now`, a parameter of `since`, is read before the heartbeats.
module _ (db : Database) (r : Redis db.World) (loads : Text → Loaded) (since : Text → Age)
    (spec : Text) where
  unfoldable pub health : ℤ → Action db.World Activity
  unfolding runs_of stale_thresholds sort_runs series_of clamp_hours connected
  health hours = do
    entries ← r.hgetall (codes "pipeline:runs")
    runs ← lift (runs_of loads (stale_thresholds spec) since entries)
    rows ← connected db (db.snapshots (snapshot_statement (clamp_hours hours)))
    pure (record { runs = sort_runs runs; series = series_of rows })
