-- ===== src/Dashboard/Answers.antt =====
-- The SQL of the article list of py-processor/dashboard/queries.py, as PostgreSQL documents it.
use webspider.Prelude.{
  ℕ, ◌<◌, ◌≡◌, Bool, true, false, ◌&&◌, ◌||◌, List, [], ◌∷◌, ◌++◌, take, drop, length, All, Option,
  none, some, Text, codes, text_eq, if◌then◌else◌,
}
use webspider.Outcome.{ok}
use webspider.Sql.{Param, text_param, number_param}
use webspider.Dashboard.{Listed, Database, Filters}

-- The tests of a row that the SQL of this list can name.
pub data Test : Type 0 where
  language_eq : Text → Test
  source_type_eq : Text → Test
  url_or_content_like : Text → Text → Test

-- How SQL spells them, and the parameters for their placeholders.
unfoldable pub spelled : Test → Text
spelled (language_eq l) = codes "language = %s"
spelled (source_type_eq s) = codes "source_type = %s"
spelled (url_or_content_like p p') = codes "(url ILIKE %s OR content_md ILIKE %s)"

unfoldable pub arguments : Test → List Param
arguments (language_eq l) = text_param l ∷ []
arguments (source_type_eq s) = text_param s ∷ []
arguments (url_or_content_like p p') = text_param p ∷ text_param p' ∷ []

unfoldable pub all_arguments : List Test → List Param
unfolding arguments
all_arguments [] = []
all_arguments (t ∷ ts) = arguments t ++ all_arguments ts

unfoldable pub and_more : List Test → Text
unfolding spelled
and_more [] = []
and_more (t ∷ ts) = codes " AND " ++ (spelled t ++ and_more ts)

unfoldable pub where_clause : List Test → Text
unfolding and_more
where_clause [] = []
where_clause (t ∷ ts) = codes "WHERE " ++ (spelled t ++ and_more ts)

unfoldable pub is_text : Text → Option Text → Bool
is_text t none = false
is_text t (some s) = text_eq t s

unfoldable pub matching : (Listed → Bool) → List Listed → List Listed
matching p [] = []
matching p (r ∷ rows) = if p r then r ∷ matching p rows else matching p rows

-- Rows by descending id.
abbrev pub NewestFirst : List Listed → Type 0
NewestFirst [] = Unit
NewestFirst (r ∷ rows) = All (λ (x : Listed). x.id < r.id) rows × NewestFirst rows

-- `ilike pattern text` is PostgreSQL's ILIKE, and `content_like` that of the content of a row.
module _ (ilike : Text → Text → Bool) (content_like : Text → Listed → Bool) where
  unfoldable pub holds : Listed → Test → Bool
  unfolding is_text
  holds r (language_eq l) = is_text l r.language
  holds r (source_type_eq s) = is_text s r.source_type
  holds r (url_or_content_like p p') = ilike p r.url || content_like p' r

  unfoldable pub all_hold : List Test → Listed → Bool
  unfolding holds
  all_hold [] r = true
  all_hold (t ∷ ts) r = holds r t && all_hold ts r

  -- What the filters ask of a row: each one that is given and not empty.
  unfoldable pub if_given : (Text → Bool) → Option Text → Bool
  if_given p none = true
  if_given p (some []) = true
  if_given p (some (c ∷ s)) = p (c ∷ s)

  unfoldable pub wanted : Filters → Listed → Bool
  unfolding if_given is_text
  wanted f r =
      if_given (λ l. is_text l r.language) f.lang
      && (if_given (λ s. is_text s r.source_type) f.source
          && if_given
              (λ q.
                ilike (b'%' ∷ (q ++ b'%' ∷ [])) r.url || content_like (b'%' ∷ (q ++ b'%' ∷ [])) r)
              f.q)

  -- What PostgreSQL documents of the two statements, over a table whose rows are `newest`, by
  -- descending id: a WHERE clause keeps the rows for which all of its tests hold, `count(*)` is
  -- their number, and ORDER BY id DESC with LIMIT and OFFSET cuts a window out of them in that
  -- order.
  pub record Answers (db : Database) (newest : List Listed) : Type 0 where
    pub order : NewestFirst newest
    pub opens : (w : db.World) → (db.get_conn w).0 ≡ ok tt
    pub closes : (w : db.World) → (db.put_conn w).0 ≡ ok tt
    pub counted :
        (ts : List Test) (w : db.World)
        → (db.count
            (record {
              sql = codes "SELECT count(*) FROM articles " ++ where_clause ts;
              params = all_arguments ts;
            })
            w).0
          ≡ ok (length (matching (all_hold ts) newest))
    pub window :
        (ts : List Test) (limit offset : ℕ) (w : db.World)
        → (db.listed
            (record {
              sql =
                  codes
                    "SELECT id, url, title, language, source_type, length(content_md) AS md_len, left(content_md, 300) AS preview, crawled_at FROM articles "
                  ++ (where_clause ts ++ codes " ORDER BY id DESC LIMIT %s OFFSET %s");
              params = all_arguments ts ++ number_param limit ∷ number_param offset ∷ [];
            })
            w).0
          ≡ ok (take limit (drop offset (matching (all_hold ts) newest)))
