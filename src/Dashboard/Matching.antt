-- ===== src/Dashboard/Matching.antt =====
-- The rows that the article list of py-processor/dashboard/queries.py shows for its filters.
use mathlib.Core.List.{append-nil}
use webspider.Prelude.{
  ℕ, suc, ◌*◌, ◌≤◌, ◌<◌, ◌≡◌, refl, sym, ap, ◌∙◌, Bool, true, false, ◌&&◌, ◌||◌, List, [], ◌∷◌,
  ◌++◌, map, take, drop, length, All, Bool-cases, inl, inr, Option, none, some, Text, codes,
}
use webspider.Dedupe.{pos}
use webspider.Outcome.{ok}
use webspider.Sql.{Param, number_param, Condition, join, sql_of, params_of, where_given}
use webspider.Dashboard.{
  Listed, Database, Item, item_of, Filters, language_is, source_is, around, contains, conditions,
  where_sql, count_statement, list_statement, articles,
}
use webspider.Dashboard.Paging.{Serves, up_to, articles-pages}
use webspider.Dashboard.Answers.{
  Test, language_eq, source_type_eq, url_or_content_like, spelled, arguments, all_arguments,
  and_more, where_clause, matching, NewestFirst, holds, all_hold, if_given, wanted, Answers,
}

join-and_more :
    (t : Test) (ts : List Test)
    → join (codes " AND ") (map spelled (t ∷ ts)) ≡ spelled t ++ and_more ts
unfolding join and_more
join-and_more t [] = sym (append-nil (spelled t))
join-and_more t (u ∷ ts) = ap (λ l. spelled t ++ (codes " AND " ++ l)) (join-and_more u ts)

where_sql-where_clause : (ts : List Test) → where_sql (map spelled ts) ≡ where_clause ts
unfolding where_sql where_clause
where_sql-where_clause [] = refl
where_sql-where_clause (t ∷ ts) = ap (λ l. codes "WHERE " ++ l) (join-and_more t ts)

-- The test for a text that is given.
test_given : (Text → Test) → Option Text → List Test → List Test
test_given test none ts = ts
test_given test (some []) ts = ts
test_given test (some (c ∷ s)) ts = test (c ∷ s) ∷ ts

tests_of : Filters → List Test
tests_of f = test_given language_eq f.lang (
    test_given source_type_eq f.source
      (test_given (λ q. url_or_content_like (around q) (around q)) f.q []))

-- Conditions that stand for tests.
record Stands (cs : List Condition) (ts : List Test) : Type 0 where
  texts : sql_of cs ≡ map spelled ts
  params : params_of cs ≡ all_arguments ts

Stands-given :
    (condition : Text → Condition) (test : Text → Test) (o : Option Text) (cs : List Condition)
    (ts : List Test)
    → ((t : Text) → (condition t).sql ≡ spelled (test t))
    → ((t : Text) → (condition t).params ≡ arguments (test t))
    → Stands cs ts
    → Stands (where_given condition o cs) (test_given test o ts)
unfolding where_given test_given sql_of params_of all_arguments
Stands-given condition test none cs ts e f h = h
Stands-given condition test (some []) cs ts e f h = h
Stands-given condition test (some (c ∷ s)) cs ts e f h = record {
  texts = rw (e (c ∷ s), h.texts) refl;
  params = rw (f (c ∷ s), h.params) refl;
}

conditions-Stands : (f : Filters) → Stands (conditions f) (tests_of f)
unfolding conditions tests_of spelled arguments
conditions-Stands f =
    Stands-given language_is language_eq f.lang _ _ (λ t. refl) (λ t. refl)
      (Stands-given source_is source_type_eq f.source _ _ (λ t. refl) (λ t. refl)
        (Stands-given contains (λ q. url_or_content_like (around q) (around q)) f.q [] []
          (λ t. refl) (λ t. refl)
          (unfold sql_of params_of all_arguments in record { texts = refl; params = refl })))

matching-cong :
    (p q : Listed → Bool) (rows : List Listed)
    → ((r : Listed) → p r ≡ q r)
    → matching p rows ≡ matching q rows
unfolding matching
matching-cong p q [] h = refl
matching-cong p q (r ∷ rows) h = rw (h r, matching-cong p q rows h) refl

matching-All :
    (P : Listed → Type 0) (p : Listed → Bool) (rows : List Listed)
    → All P rows
    → All P (matching p rows)
unfolding matching
matching-All P p [] h = tt
matching-All P p (r ∷ rows) h = elim (Bool-cases (p r)) [
  | inl e ↦ rw e (h.0, matching-All P p rows h.1)
  | inr e ↦ rw e (matching-All P p rows h.1)
]

matching-NewestFirst :
    (p : Listed → Bool) (rows : List Listed) → NewestFirst rows → NewestFirst (matching p rows)
unfolding matching
matching-NewestFirst p [] h = tt
matching-NewestFirst p (r ∷ rows) h = elim (Bool-cases (p r)) [
  | inl e ↦
      rw e (matching-All (λ (x : Listed). x.id < r.id) p rows h.0, matching-NewestFirst p rows h.1)
  | inr e ↦ rw e (matching-NewestFirst p rows h.1)
]

module _ (ilike : Text → Text → Bool) (content_like : Text → Listed → Bool) where
  all_hold-given :
      (test : Text → Test) (o : Option Text) (ts : List Test) (r : Listed)
      → all_hold ilike content_like (test_given test o ts) r ≡ (
          if_given ilike content_like (λ t. holds ilike content_like r (test t)) o
          && all_hold ilike content_like ts r)
  unfolding all_hold test_given if_given
  all_hold-given test none ts r = refl
  all_hold-given test (some []) ts r = refl
  all_hold-given test (some (c ∷ s)) ts r = refl

  and_true : (b : Bool) → (b && true) ≡ b
  and_true true = refl
  and_true false = refl

  all_hold-wanted :
      (f : Filters) (r : Listed)
      → all_hold ilike content_like (tests_of f) r ≡ wanted ilike content_like f r
  unfolding wanted tests_of
  all_hold-wanted f r =
      all_hold-given language_eq f.lang _ r
      ∙ unfold holds all_hold in
        rw
          (
            all_hold-given source_type_eq f.source
                (test_given (λ q. url_or_content_like (around q) (around q)) f.q []) r,
            all_hold-given (λ q. url_or_content_like (around q) (around q)) f.q [] r,
          )
          (rw
            (and_true (
              if_given ilike content_like (λ q. ilike (around q) r.url || content_like (around q) r)
                f.q))
            refl)

module _ {ilike : Text → Text → Bool} {content_like : Text → Listed → Bool} {db : Database}
    {newest : List Listed} (answers : Answers ilike content_like db newest) (f : Filters) where
  abbrev pub shown : List Listed
  shown = matching (wanted ilike content_like f) newest

  same_rows : matching (all_hold ilike content_like (tests_of f)) newest ≡ shown
  same_rows =
      matching-cong (all_hold ilike content_like (tests_of f)) (wanted ilike content_like f) newest
        (all_hold-wanted ilike content_like f)

  same_where : where_sql (sql_of (conditions f)) ≡ where_clause (tests_of f)
  same_where = ap where_sql (conditions-Stands f).texts ∙ where_sql-where_clause (tests_of f)

  -- The two statements of the list are those that the laws are about.
  answers-Serves : Serves db f shown
  unfolding count_statement list_statement
  answers-Serves = record {
    opens = answers.opens;
    closes = answers.closes;
    counted = λ w.
        ap
          (λ (s : Text × List Param).
            (db.count (record { sql = codes "SELECT count(*) FROM articles " ++ s.0; params = s.1 })
              w).0)
          (λ i. (same_where i, (conditions-Stands f).params i))
        ∙ answers.counted (tests_of f) w
        ∙ ap (λ (rows : List Listed). ok (length rows)) same_rows;
    window = λ limit offset w.
        ap
          (λ (s : Text × List Param).
            (db.listed
              (record {
                sql =
                    codes
                      "SELECT id, url, title, language, source_type, length(content_md) AS md_len, left(content_md, 300) AS preview, crawled_at FROM articles "
                    ++ (s.0 ++ codes " ORDER BY id DESC LIMIT %s OFFSET %s");
                params = s.1 ++ number_param limit ∷ number_param offset ∷ [];
              })
              w).0)
          (λ i. (same_where i, (conditions-Stands f).params i))
        ∙ answers.window (tests_of f) limit offset w
        ∙ ap (λ (rows : List Listed). ok (take limit (drop offset rows))) same_rows;
  }

  -- The rows of the table that the filters ask for, each filter that is given and not empty: the
  -- language, the source, or a pattern in the URL or the content. Over a database that answers SQL
  -- as `Answers` says and does not change, the pages one to `k`, of any size from 1 to 100 and asked
  -- for at any times, return; their items are the first `k` times `size` of those rows by descending
  -- id, each once and in that order; and each page has the number of all of them.
  pub articles-matching :
      (size k : ℕ)
      → 1 ≤ size
      → size ≤ 100
      → (w : ℕ → db.World)
      → NewestFirst shown
        × ((items : ℕ → List Item) × ((i : ℕ)
              → (articles db f (pos (suc i)) (pos size) (w i)).0
                ≡ ok (record {
                  page = suc i;
                  page_size = size;
                  total = length shown;
                  items = items i;
                }))
            × (up_to k items ≡ map item_of (take (k * size) shown)))
  articles-matching size k low high w = (
    matching-NewestFirst (wanted ilike content_like f) newest answers.order,
    articles-pages db f shown answers-Serves size k low high w,
  )
