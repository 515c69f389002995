-- ===== src/Dashboard/Marks.antt =====
-- About the SQL that the article list builds from its filters.
use webspider.Prelude.{ℕ, ◌≡◌, refl, ap, List, [], ◌∷◌, ◌++◌, Text, codes, length}
use webspider.Sql.{Condition, number_param, join, placeholders, sql_of, params_of}
use webspider.Sql.Given.{is_given, where_given-elim, sql_of-where_given}
use webspider.Dashboard.{
  Filters, language_is, source_is, contains, conditions, where_sql, count_statement, list_statement,
  count_sql, list_sql,
}

-- The filters that are given make one of eight lists of conditions.
conditions-elim {ℓ} :
    (f : Filters) (P : List Condition → Type ℓ)
    → ((l s q : Text)
        → P []
          × P (contains q ∷ [])
          × P (source_is s ∷ [])
          × P (source_is s ∷ contains q ∷ [])
          × P (language_is l ∷ [])
          × P (language_is l ∷ contains q ∷ [])
          × P (language_is l ∷ source_is s ∷ [])
          × P (language_is l ∷ source_is s ∷ contains q ∷ []))
    → P (conditions f)
unfolding conditions
conditions-elim f P h =
    where_given-elim language_is f.lang _ P
      (where_given-elim source_is f.source _ P
        (where_given-elim contains f.q [] P (h [] [] []).0 (λ q. (h [] [] q).1))
        (λ s.
          where_given-elim contains f.q [] (λ cs. P (source_is s ∷ cs)) (h [] s []).2
            (λ q. (h [] s q).3)))
      (λ l.
        where_given-elim source_is f.source _ (λ cs. P (language_is l ∷ cs))
          (where_given-elim contains f.q [] (λ cs. P (language_is l ∷ cs)) (h l [] []).4
            (λ q. (h l [] q).5))
          (λ s.
            where_given-elim contains f.q [] (λ cs. P (language_is l ∷ source_is s ∷ cs))
              (h l s []).6 (λ q. (h l s q).7)))

-- Both statements of the article list have one placeholder for each parameter, whatever filters are
-- given.
pub articles-placeholders :
    (f : Filters) (size offset : ℕ)
    → (placeholders (count_statement f).sql ≡ length (count_statement f).params)
      × (placeholders (list_statement f size offset).sql
          ≡ length (list_statement f size offset).params)
unfolding count_statement list_statement placeholders where_sql sql_of params_of join
articles-placeholders f size offset =
    conditions-elim f
      (λ cs.
        (placeholders (codes count_sql ++ where_sql (sql_of cs)) ≡ length (params_of cs))
        × (placeholders (
              codes list_sql
              ++ (where_sql (sql_of cs) ++ codes " ORDER BY id DESC LIMIT %s OFFSET %s"))
            ≡ length (params_of cs ++ number_param size ∷ number_param offset ∷ [])))
      (λ l s q. (
        (refl, refl),
        (refl, refl),
        (refl, refl),
        (refl, refl),
        (refl, refl),
        (refl, refl),
        (refl, refl),
        (refl, refl),
      ))

conditions-fixed :
    (f g : Filters)
    → is_given f.lang ≡ is_given g.lang
    → is_given f.source ≡ is_given g.source
    → is_given f.q ≡ is_given g.q
    → sql_of (conditions f) ≡ sql_of (conditions g)
unfolding conditions
conditions-fixed f g el es eq =
    sql_of-where_given language_is f.lang g.lang _ _ (λ t t'. refl) el
      (sql_of-where_given source_is f.source g.source _ _ (λ t t'. refl) es
        (sql_of-where_given contains f.q g.q [] [] (λ t t'. refl) eq refl))

-- The SQL of both statements depends only on which filters are given: no text of a filter is part
-- of it.
pub articles-sql :
    (f g : Filters) (size offset size' offset' : ℕ)
    → is_given f.lang ≡ is_given g.lang
    → is_given f.source ≡ is_given g.source
    → is_given f.q ≡ is_given g.q
    → ((count_statement f).sql ≡ (count_statement g).sql)
      × ((list_statement f size offset).sql ≡ (list_statement g size' offset').sql)
unfolding count_statement list_statement
articles-sql f g size offset size' offset' el es eq =
    let same = conditions-fixed f g el es eq in
    (
      ap (λ cs. codes count_sql ++ where_sql cs) same,
      ap (λ cs. codes list_sql ++ (where_sql cs ++ codes " ORDER BY id DESC LIMIT %s OFFSET %s"))
          same,
    )
