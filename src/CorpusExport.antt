-- ===== src/CorpusExport.antt =====
-- py-processor/export.py: the statement of the plain corpus export and its loop over the rows. The
-- file is the list of records that are written; a score is in thousandths.
use webspider.Prelude.{
  ℕ, zero, suc, ◌≡◌, refl, List, [], ◌∷◌, ◌++◌, Option, none, some, Text, String, codes, length,
}
use webspider.Services.Keeps.{Spares}
use webspider.Action.{Action, pure, ◌>>=◌}
use webspider.Action.Borrowing.{Pool, borrow, borrow-Spares}
use webspider.Action.Sparing.{Spares-bind, Spares-pure}
use webspider.Sql.{Param, text_param, number_param, Statement, placeholders}

pub record Options : Type 0 where
  pub limit : ℕ
  pub min_len : ℕ
  pub min_score : ℕ
  pub lang : Option Text

pub record DocRow : Type 0 where
  pub url : Text
  pub title : Option Text
  pub content_md : Text
  pub author : Option Text
  pub published_at : Option Text
  pub tags : Option (List Text)
  pub source_type : Option Text
  pub language : Option Text
  pub quality_score : Option ℕ

abbrev base_sql : String
base_sql =
    "SELECT url, title, content_md, author, published_at, tags, source_type, language, quality_score FROM articles WHERE content_md IS NOT NULL AND length(content_md) >= %s"

-- `sql += text` and `params.append(param)`
abbrev append_clause : String → Param → Statement → Statement
append_clause sql param st = record { sql = st.sql ++ codes sql; params = st.params ++ param ∷ [] }

unfoldable pub and_score : ℕ → Statement → Statement
and_score zero st = st
and_score (suc n) st = append_clause " AND quality_score >= %s" (number_param (suc n)) st

unfoldable pub and_lang : Option Text → Statement → Statement
and_lang none st = st
and_lang (some []) st = st
and_lang (some (c ∷ s)) st = append_clause " AND language = %s" (text_param (c ∷ s)) st

unfoldable pub and_limit : ℕ → Statement → Statement
and_limit zero st = st
and_limit (suc n) st = append_clause " LIMIT %s" (number_param (suc n)) st

abbrev in_order : Statement → Statement
in_order st = record st { sql = st.sql ++ codes " ORDER BY id" }

unfoldable pub export_statement : Options → Statement
unfolding and_score and_lang and_limit
export_statement o =
    let base : Statement = record { sql = codes base_sql; params = number_param o.min_len ∷ [] } in
    and_limit o.limit (in_order (and_lang o.lang (and_score o.min_score base)))

pub record Documents : Type 1 where
  pub World : Type 0
  pub get_conn : Action World (Unit {0})
  pub put_conn : Action World (Unit {0})
  -- the rows of a statement, by its cursor
  pub rows : Statement → Action World (List DocRow)
  -- a line of the file
  pub write : DocRow → Action World (Unit {0})

module _ (dc : Documents) where
  -- The loop over the rows: how many are written.
  unfoldable pub write_rows : ℕ → List DocRow → Action dc.World ℕ
  write_rows written [] = pure written
  write_rows written (row ∷ rows) = do _ ← dc.write row; write_rows (suc written) rows

  unfoldable pub export_body : Options → Action dc.World ℕ
  unfolding export_statement write_rows
  export_body o = do rows ← dc.rows (export_statement o); write_rows 0 rows

  -- `export_jsonl`, to the number that it prints.
  unfoldable pub export_jsonl : Options → Action dc.World ℕ
  unfolding borrow export_body
  export_jsonl o = borrow dc.get_conn dc.put_conn (export_body o)

-- The statement has one placeholder for each parameter, whatever options are given.
export-placeholders :
    (o : Options) → placeholders (export_statement o).sql ≡ length (export_statement o).params
unfolding export_statement placeholders and_score and_lang and_limit
export-placeholders o = by o.limit o.min_score o.lang
  where
    by :
        (limit score : ℕ) (lang : Option Text)
        → placeholders
            (export_statement (record o { limit = limit; min_score = score; lang = lang })).sql
          ≡ length
              (export_statement (record o { limit = limit; min_score = score; lang = lang })).params
    by zero zero none = refl
    by zero zero (some []) = refl
    by zero zero (some (c ∷ s)) = refl
    by zero (suc n) none = refl
    by zero (suc n) (some []) = refl
    by zero (suc n) (some (c ∷ s)) = refl
    by (suc k) zero none = refl
    by (suc k) zero (some []) = refl
    by (suc k) zero (some (c ∷ s)) = refl
    by (suc k) (suc n) none = refl
    by (suc k) (suc n) (some []) = refl
    by (suc k) (suc n) (some (c ∷ s)) = refl

module _ (dc : Documents) (out : dc.World → ℕ) (pool : Pool dc.get_conn dc.put_conn out)
    (rows-Spares : (st : Statement) → Spares out (dc.rows st))
    (write-Spares : (row : DocRow) → Spares out (dc.write row)) where
  write_rows-Spares : (n : ℕ) (rows : List DocRow) → Spares out (write_rows dc n rows)
  unfolding write_rows
  write_rows-Spares n [] = Spares-pure n
  write_rows-Spares n (row ∷ rows) =
      Spares-bind _ _ (write-Spares row) (λ _. write_rows-Spares (suc n) rows)

  -- An export leaves as many connections checked out as there were, also when it raises.
  export_jsonl-Spares : (o : Options) → Spares out (export_jsonl dc o)
  unfolding export_jsonl export_body
  export_jsonl-Spares o =
      borrow-Spares dc.get_conn dc.put_conn out _ pool
        (Spares-bind _ _ (rows-Spares _) (λ rows. write_rows-Spares 0 rows))
