-- ===== src/Tests/Dashboards.antt =====
-- The dashboard over three articles in memory.
use webspider.Prelude.{
  ℕ, suc, ◌-◌, ◌*◌, ◌⊎◌, ◌≡◌, refl, arith, true, List, [], ◌∷◌, ◌++◌, map, length, Option, none,
  some, ap, sym, ◌∙◌, ◌==◌, Text, codes, take, drop, text_eq, All, if◌then◌else◌,
}
use mathlib.Core.List.{Perm, append-nil}
use webspider.Dedupe.{ℤ, pos, negsuc}
use webspider.Outcome.{ok, raise, database_error}
use webspider.Action.{Action}
use webspider.Sql.{Param, text_param, number_param}
use webspider.Dashboard.{
  Listed, Database, Item, item_of, Filters, articles, count_statement, list_statement, clamp_page,
  clamp_size,
}
use webspider.Dashboard.Paging.{up_to}
use webspider.Dashboard.Marks.{articles-sql}
use webspider.Dashboard.Answers.{
  Test, language_eq, source_type_eq, url_or_content_like, spelled, arguments, all_arguments,
  and_more, where_clause, matching, NewestFirst, all_hold, wanted, Answers,
}
use webspider.Dashboard.Matching.{shown, articles-matching}
use webspider.Dashboard.Health.{
  RunRecord, Loaded, malformed, object, Age, no_date, age, Run, stale_thresholds, run_of, runs_of,
  sort_runs,
}
use webspider.Dashboard.Health.Runs.{Ascending, Judged, readable, runs-Reported}
use webspider.Dashboard.Routes.{Request, Response, sent, failed, auth_guard, refuses}
use webspider.Dashboard.Routes.Guarded.{Unauthorized, auth_guard-refuses}

abbrev listed : ℕ → Listed
listed n = record {
  id = n;
  url = codes "https://a.example";
  title = none;
  language = some (codes "en");
  source_type = none;
  md_len = some 10;
  preview = none;
  crawled_at = none;
}

abbrev table : List Listed
table = listed 3 ∷ listed 2 ∷ listed 1 ∷ []

-- An answer to the SQL of the article list: its tests, read from the WHERE clause and the parameters.
-- The first argument is the first pattern of a disjunction.
unfoldable read_tests : Option Text → Text → List Param → List Test
read_tests o s [] = []
read_tests o s (number_param n ∷ ps) = []
read_tests (some p) s (text_param p' ∷ ps) =
    url_or_content_like p p' ∷ read_tests none (drop 42 s) ps
read_tests none [] (text_param p ∷ ps) = []
read_tests none (c ∷ s) (text_param p ∷ ps) =
    let like = read_tests (some p) (c ∷ s) ps in
    let source = source_type_eq p ∷ read_tests none (drop 21 (c ∷ s)) ps in
    let language = language_eq p ∷ read_tests none (drop 18 (c ∷ s)) ps in
    if c == b'l' then language else if c == b's' then source else like

-- LIMIT and OFFSET, from the parameters of a statement.
unfoldable window_of : List Param → List Listed → List Listed
window_of [] rows = rows
window_of (text_param t ∷ ps) rows = window_of ps rows
window_of (number_param n ∷ []) rows = rows
window_of (number_param n ∷ text_param t ∷ ps) rows = rows
window_of (number_param n ∷ number_param o ∷ ps) rows = take n (drop o rows)

-- Every text is like every pattern.
abbrev rows_for : List Test → List Listed
rows_for ts = matching (all_hold (λ p s. true) (λ p r. true) ts) table

-- The world is the number of connections that are out.
abbrev three_articles : Database
three_articles = record {
  World = ℕ;
  get_conn = λ w. (ok tt, suc w);
  put_conn = λ w. (ok tt, w - 1);
  totals = λ st w. (raise database_error, w);
  counts = λ st w. (ok [], w);
  detail = λ st w. (ok none, w);
  count = λ st w. (ok (length (rows_for (read_tests none (drop 36 st.sql) st.params))), w);
  listed = λ st w.
      (ok (window_of st.params (rows_for (read_tests none (drop 141 st.sql) st.params))), w);
  snapshots = λ st w. (ok [], w);
}

IsEnd : List Param → Type 0
IsEnd [] = Unit
IsEnd (number_param n ∷ ps) = Unit
IsEnd (text_param t ∷ ps) = ⊥

read_tests-end : (o : Option Text) (s : Text) (ps : List Param) → IsEnd ps → read_tests o s ps ≡ []
unfolding read_tests IsEnd
read_tests-end o s [] h = refl
read_tests-end o s (number_param n ∷ ps) h = refl
read_tests-end o s (text_param t ∷ ps) h = elim h [ ]

read_tests-and_more :
    (ts : List Test) (tail : Text) (ps : List Param)
    → IsEnd ps
    → read_tests none (drop 5 (and_more ts ++ tail)) (all_arguments ts ++ ps) ≡ ts
unfolding read_tests and_more all_arguments spelled arguments
read_tests-and_more [] tail ps h = read_tests-end none (drop 5 tail) ps h
read_tests-and_more (language_eq l ∷ ts) tail ps h =
    ap (λ us. language_eq l ∷ us) (read_tests-and_more ts tail ps h)
read_tests-and_more (source_type_eq l ∷ ts) tail ps h =
    ap (λ us. source_type_eq l ∷ us) (read_tests-and_more ts tail ps h)
read_tests-and_more (url_or_content_like p p' ∷ ts) tail ps h =
    ap (λ us. url_or_content_like p p' ∷ us) (read_tests-and_more ts tail ps h)

read_tests-where_clause :
    (ts : List Test) (tail : Text) (ps : List Param)
    → IsEnd ps
    → read_tests none (drop 6 (where_clause ts ++ tail)) (all_arguments ts ++ ps) ≡ ts
unfolding read_tests where_clause all_arguments spelled arguments
read_tests-where_clause [] tail ps h = read_tests-end none (drop 6 tail) ps h
read_tests-where_clause (language_eq l ∷ ts) tail ps h =
    ap (λ us. language_eq l ∷ us) (read_tests-and_more ts tail ps h)
read_tests-where_clause (source_type_eq l ∷ ts) tail ps h =
    ap (λ us. source_type_eq l ∷ us) (read_tests-and_more ts tail ps h)
read_tests-where_clause (url_or_content_like p p' ∷ ts) tail ps h =
    ap (λ us. url_or_content_like p p' ∷ us) (read_tests-and_more ts tail ps h)

window_of-all_arguments :
    (ts : List Test) (n o : ℕ) (rows : List Listed)
    → window_of (all_arguments ts ++ number_param n ∷ number_param o ∷ []) rows
      ≡ take n (drop o rows)
unfolding window_of all_arguments arguments
window_of-all_arguments [] n o rows = refl
window_of-all_arguments (language_eq l ∷ ts) n o rows = window_of-all_arguments ts n o rows
window_of-all_arguments (source_type_eq l ∷ ts) n o rows = window_of-all_arguments ts n o rows
window_of-all_arguments (url_or_content_like p p' ∷ ts) n o rows =
    window_of-all_arguments ts n o rows

table-Answers : Answers (λ p s. true) (λ p r. true) three_articles table
unfolding IsEnd
table-Answers = record {
  order = ((omega arith, (omega arith, tt)), ((omega arith, tt), (tt, tt)));
  opens = λ w. refl;
  closes = λ w. refl;
  counted = λ ts w.
      ap (λ (us : List Test). ok (length (rows_for us)))
        (ap (λ (s : Text × List Param). read_tests none (drop 6 s.0) s.1)
            (λ i. (sym (append-nil (where_clause ts)) i, sym (append-nil (all_arguments ts)) i))
          ∙ read_tests-where_clause ts [] [] tt);
  window = λ ts n o w.
      ap (λ (rows : List Listed). ok rows)
        (ap (window_of (all_arguments ts ++ number_param n ∷ number_param o ∷ []))
            (ap rows_for (read_tests-where_clause ts _ (number_param n ∷ number_param o ∷ []) tt))
          ∙ window_of-all_arguments ts n o (rows_for ts));
}

-- The articles in English.
abbrev english : Filters
english = record { lang = some (codes "en"); source = some []; q = none }

articles-matching_example :
    NewestFirst (shown table-Answers english)
    × ((items : ℕ → List Item) × ((i : ℕ)
          → (articles three_articles english (pos (suc i)) (pos 2) 0).0
            ≡ ok (record {
              page = suc i;
              page_size = 2;
              total = length (shown table-Answers english);
              items = items i;
            }))
        × (up_to 2 items ≡ map item_of (take (2 * 2) (shown table-Answers english))))
articles-matching_example =
    articles-matching table-Answers english 2 2 (omega arith) (omega arith) (λ i. 0)

all_three : shown table-Answers english ≡ table
unfolding matching wanted text_eq
all_three = refl

-- A language that is SQL of its own.
abbrev hostile : Filters
hostile = record { lang = some (codes "'; DROP TABLE articles; --"); source = none; q = some [] }

articles-sql_example :
    ((count_statement english).sql ≡ (count_statement hostile).sql)
    × ((list_statement english 2 0).sql ≡ (list_statement hostile 50 100).sql)
articles-sql_example = articles-sql english hostile 2 0 50 100 refl refl refl

-- Sizes and pages out of range are clamped.
clamped : (clamp_page (negsuc 4) ≡ 1) × (clamp_size (pos 1000) ≡ 100) × (clamp_size (pos 0) ≡ 1)
unfolding clamp_page clamp_size
clamped = (refl, refl, refl)

abbrev heartbeat : Text → RunRecord
heartbeat t = record {
  finished_at = some t;
  pages = some 3;
  published = some 2;
  failed_pages = some 0;
  publish_errors = some 0;
  duration_ms = some 900;
}

-- A text "x" is not JSON; any other is a run that ended at that text.
abbrev loads : Text → Loaded
loads s = if text_eq s (codes "x") then malformed else object (heartbeat s)

-- The run that ended at "old" did so 121 minutes ago.
abbrev since : Text → Age
since s = if text_eq s (codes "old") then age (pos 7260000000) else no_date

abbrev heartbeats : List (Text × Text)
heartbeats =
    (codes "rss", codes "old")
    ∷ (codes "devto", codes "old")
    ∷ (codes "hashnode", codes "x")
    ∷ (codes "a", codes "noon")
    ∷ []

abbrev limits : List (Text × ℤ)
limits = stale_thresholds (codes "devto:120, rss:180,bad:x")

abbrev three_runs : List Run
three_runs =
    run_of limits (codes "rss") (heartbeat (codes "old")) (some (pos 7260000000))
    ∷ run_of limits (codes "devto") (heartbeat (codes "old")) (some (pos 7260000000))
    ∷ run_of limits (codes "a") (heartbeat (codes "noon")) none
    ∷ []

three_runs_read : runs_of loads limits since heartbeats ≡ ok three_runs
unfolding runs_of text_eq
three_runs_read = refl

three_statuses :
    map (λ (r : Run). r.status) three_runs ≡ codes "ok" ∷ codes "stale" ∷ codes "unknown" ∷ []
unfolding run_of stale_thresholds text_eq
three_statuses = refl

runs-Reported_example :
    Ascending (sort_runs three_runs)
    × Perm (sort_runs three_runs) three_runs
    × (map (λ (r : Run). r.source) three_runs ≡ readable loads limits since heartbeats)
    × All (Judged loads limits since) three_runs
runs-Reported_example = runs-Reported loads limits since heartbeats three_runs three_runs_read

abbrev request : Request
request = record { path = codes "/api/summary"; authorization = some (codes "Bearer wrong") }

abbrev answer : Action ℕ (Response ℕ)
answer w = (ok (sent 7), suc w)

auth_guard-refuses_example :
    (Unauthorized (codes "token") request
      × (auth_guard (codes "token") request answer 0 ≡ (ok (failed 401), 0)))
    ⊎ ((Unauthorized (codes "token") request → ⊥)
        × (auth_guard (codes "token") request answer 0 ≡ (ok (sent 7), 1)))
auth_guard-refuses_example = auth_guard-refuses (codes "token") request answer 0

wrong_token : refuses (codes "token") request ≡ true
unfolding refuses text_eq
wrong_token = refl
