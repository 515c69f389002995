-- ===== src/Dashboard.antt =====
-- py-processor/dashboard/queries.py: the database behind the dashboard and the statements on the
-- articles. A statement is written without the line breaks and indents of the source. A date is
-- the text that `isoformat` or `str` gives of it, and a score is in thousandths.
pub mod Paging
pub mod Answers
pub mod Matching
pub mod Marks
pub mod Returned
pub mod Metrics
pub mod Health
pub mod Routes
use webspider.Prelude.{
  ℕ, ◌-◌, ◌*◌, min, max, List, [], ◌∷◌, ◌++◌, map, Option, none, some, Text, String, codes,
}
use webspider.Dedupe.{ℤ, pos, negsuc}
use webspider.Outcome.{Outcome}
use webspider.Action.{Action, pure, ◌>>=◌}
use webspider.Action.Borrowing.{borrow}
use webspider.Sql.{
  Param, text_param, number_param, Statement, Condition, join, sql_of, params_of, where_given,
}

-- A row of the article list.
pub record Listed : Type 0 where
  pub id : ℕ
  pub url : Text
  pub title : Option Text
  pub language : Option Text
  pub source_type : Option Text
  pub md_len : Option ℕ
  pub preview : Option Text
  pub crawled_at : Option Text

-- A row of the detail view.
pub record Detail : Type 0 where
  pub id : ℕ
  pub url : Text
  pub title : Option Text
  pub content_md : Option Text
  pub author : Option Text
  pub published_at : Option Text
  pub tags : Option (List Text)
  pub source_type : Option Text
  pub language : Option Text
  pub quality_score : Option ℕ
  pub crawled_at : Option Text

pub record Totals : Type 0 where
  pub total : ℕ
  pub langs : ℕ
  pub last24 : ℕ

-- A row of the snapshots: `by_source` is `none` where the column holds no object.
pub record Snapshot : Type 0 where
  pub taken_at : Text
  pub produced : ℕ
  pub stored : ℕ
  pub pending : ℕ
  pub dlq : ℕ
  pub by_source : Option Text

-- The pool and the database: `cur.execute` with `fetchone` or `fetchall`, by what a statement
-- selects.
pub record Database : Type 1 where
  pub World : Type 0
  pub get_conn : Action World (Unit {0})
  pub put_conn : Action World (Unit {0})
  pub totals : Statement → Action World Totals
  pub counts : Statement → Action World (List (Option Text × ℕ))
  pub detail : Statement → Action World (Option Detail)
  pub count : Statement → Action World ℕ
  pub listed : Statement → Action World (List Listed)
  pub snapshots : Statement → Action World (List Snapshot)

-- An item of the article list as it is returned.
pub record Item : Type 0 where
  pub id : ℕ
  pub url : Text
  pub title : Option Text
  pub language : Option Text
  pub source_type : Option Text
  pub md_len : Option ℕ
  pub preview : Option Text
  pub created_at : Option Text

pub record Page : Type 0 where
  pub page : ℕ
  pub page_size : ℕ
  pub total : ℕ
  pub items : List Item

-- The article of the detail view as it is returned.
pub record Article : Type 0 where
  pub id : ℕ
  pub url : Text
  pub title : Option Text
  pub content_md : Option Text
  pub author : Option Text
  pub published_at : Option Text
  pub tags : List Text
  pub source_type : Option Text
  pub language : Option Text
  pub quality_score : Option ℕ
  pub crawled_at : Option Text

unfoldable pub item_of : Listed → Item
item_of r = record {
  id = r.id;
  url = r.url;
  title = r.title;
  language = r.language;
  source_type = r.source_type;
  md_len = r.md_len;
  preview = r.preview;
  created_at = r.crawled_at;
}

-- `r[6] or []`
abbrev tags_of : Option (List Text) → List Text
tags_of none = []
tags_of (some tags) = tags

unfoldable pub article_of : Option Detail → Option Article
article_of none = none
article_of (some r) = some (record {
  id = r.id;
  url = r.url;
  title = r.title;
  content_md = r.content_md;
  author = r.author;
  published_at = r.published_at;
  tags = tags_of r.tags;
  source_type = r.source_type;
  language = r.language;
  quality_score = r.quality_score;
  crawled_at = r.crawled_at;
})

-- `max(1, int(page))`
unfoldable pub clamp_page : ℤ → ℕ
clamp_page (pos n) = max 1 n
clamp_page (negsuc n) = 1

-- `max(1, min(100, int(page_size)))`
unfoldable pub clamp_size : ℤ → ℕ
clamp_size (pos n) = max 1 (min 100 n)
clamp_size (negsuc n) = 1

unfoldable pub offset_of : ℕ → ℕ → ℕ
offset_of page page_size = (page - 1) * page_size

pub record Filters : Type 0 where
  pub lang : Option Text
  pub source : Option Text
  pub q : Option Text

abbrev language_is : Text → Condition
language_is lang = record { sql = codes "language = %s"; params = text_param lang ∷ [] }

abbrev source_is : Text → Condition
source_is source = record { sql = codes "source_type = %s"; params = text_param source ∷ [] }

-- `f"%{q}%"`
abbrev around : Text → Text
around q = b'%' ∷ (q ++ b'%' ∷ [])

abbrev contains : Text → Condition
contains q = record {
  sql = codes "(url ILIKE %s OR content_md ILIKE %s)";
  params = text_param (around q) ∷ text_param (around q) ∷ [];
}

unfoldable pub conditions : Filters → List Condition
unfolding where_given
conditions f =
    where_given language_is f.lang (where_given source_is f.source (where_given contains f.q []))

unfoldable pub where_sql : List Text → Text
unfolding join
where_sql [] = []
where_sql (c ∷ cs) = codes "WHERE " ++ join (codes " AND ") (c ∷ cs)

abbrev count_sql : String
count_sql = "SELECT count(*) FROM articles "

abbrev list_sql : String
list_sql =
    "SELECT id, url, title, language, source_type, length(content_md) AS md_len, left(content_md, 300) AS preview, crawled_at FROM articles "

unfoldable pub count_statement : Filters → Statement
unfolding conditions where_sql sql_of params_of
count_statement f = record {
  sql = codes count_sql ++ where_sql (sql_of (conditions f));
  params = params_of (conditions f);
}

unfoldable pub list_statement : Filters → ℕ → ℕ → Statement
unfolding conditions where_sql sql_of params_of
list_statement f page_size offset = record {
  sql =
      codes list_sql
      ++ (where_sql (sql_of (conditions f)) ++ codes " ORDER BY id DESC LIMIT %s OFFSET %s");
  params = params_of (conditions f) ++ number_param page_size ∷ number_param offset ∷ [];
}

abbrev plain : Text → Statement
plain sql = record { sql = sql; params = [] }

abbrev summary_statement : Statement
summary_statement = plain (
    codes
      "SELECT count(*) AS total, count(DISTINCT language) AS langs, count(*) FILTER (WHERE crawled_at >= now() - interval '24 hours') AS last24 FROM articles")

abbrev language_statement : Statement
language_statement =
    plain
      (codes "SELECT language, count(*) AS cnt FROM articles GROUP BY language ORDER BY cnt DESC")

abbrev source_statement : Statement
source_statement = plain (
    codes
      "SELECT source_type, count(*) AS cnt FROM articles GROUP BY source_type ORDER BY cnt DESC")

abbrev daily_statement : ℕ → Statement
daily_statement limit = record {
  sql =
      codes
        "SELECT date_trunc('day', crawled_at)::date AS day, count(*) AS cnt FROM articles WHERE crawled_at >= now() - (%s || ' days')::interval GROUP BY day ORDER BY day";
  params = number_param limit ∷ [];
}

abbrev detail_statement : ℕ → Statement
detail_statement aid = record {
  sql =
      codes
        "SELECT id, url, title, content_md, author, published_at, tags, source_type, language, quality_score, crawled_at FROM articles WHERE id = %s";
  params = number_param aid ∷ [];
}

module _ (db : Database) where
  -- `with _conn() as conn`
  unfoldable pub connected {ℓ} : {A : Type ℓ} → Action db.World A → Action db.World A
  unfolding borrow
  connected m = borrow db.get_conn db.put_conn m

  unfoldable pub summary : Action db.World Totals
  unfolding connected
  summary = connected (db.totals summary_statement)

  unfoldable pub lang_distribution : Action db.World (List (Option Text × ℕ))
  unfolding connected
  lang_distribution = connected (db.counts language_statement)

  unfoldable pub source_distribution : Action db.World (List (Option Text × ℕ))
  unfolding connected
  source_distribution = connected (db.counts source_statement)

  unfoldable pub daily : ℕ → Action db.World (List (Option Text × ℕ))
  unfolding connected
  daily limit = connected (db.counts (daily_statement limit))

  unfoldable pub article_by_id : ℕ → Action db.World (Option Article)
  unfolding connected article_of
  article_by_id aid = do r ← connected (db.detail (detail_statement aid)); pure (article_of r)

  -- The two statements of a page run on one connection.
  unfoldable pub both : Filters → ℕ → ℕ → Action db.World (ℕ × List Listed)
  unfolding count_statement list_statement
  both f page_size offset = do
    total ← db.count (count_statement f)
    rows ← db.listed (list_statement f page_size offset)
    pure (total, rows)

  abbrev page_of : ℕ → ℕ → ℕ → List Listed → Page
  page_of page page_size total rows = record {
    page = page;
    page_size = page_size;
    total = total;
    items = map item_of rows;
  }

  unfoldable pub articles : Filters → ℤ → ℤ → Action db.World Page
  unfolding connected both clamp_page clamp_size offset_of item_of
  articles f page_arg size_arg = do
    let page = clamp_page page_arg
    let page_size = clamp_size size_arg
    (total, rows) ← connected (both f page_size (offset_of page page_size))
    pure (page_of page page_size total rows)
