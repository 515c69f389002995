-- ===== src/Import.antt =====
-- py-processor/import_pgvector.py: the rows made of chunks and vectors, the two ways of writing
-- them, and the index. A JSON value that is only passed on and a vector are values of some type;
-- the printed lines and the clock are left out.
pub mod Copied
pub mod Upserted
pub mod Indexed
use webspider.Prelude.{
  ℕ, suc, ◌+◌, Bool, true, false, ◌||◌, not, List, [], ◌∷◌, ◌++◌, Option, none, some, Text, text_eq,
  length, leb, codes, String, is_empty, if◌then◌else◌,
}
use webspider.Outcome.{Outcome, ok, raise, key_error}
use webspider.Action.{Action, pure, lift, ◌>>=◌, ◌>>◌, finally}

-- A line of the chunk file: `c["url"]` and `c["text"]` may be missing.
pub record Piece (J : Type 0) : Type 0 where
  pub article_id : J
  pub url : Option J
  pub title : J
  pub heading_path : Option (List Text)
  pub chunk_index : J
  pub n_chunks : J
  pub text : Option J
  pub tags : Option (List Text)
  pub source_type : J
  pub language : J
  pub published_at : J
  pub quality_score : J

-- A value of a row.
pub data Value (J : Type 0) : Type 0 where
  json : J → Value J
  str : Text → Value J
  strs : List Text → Value J

-- The statements without rows that the import executes.
pub data Statement : Type 0 where
  schema : ℕ → Statement
  drop_index : Statement
  set_memory : Statement
  create_index : Statement
  analyze : Statement

-- The database behind the import. A connection is part of its world.
pub record Database (J : Type 0) : Type 1 where
  pub World : Type 0
  pub connect : Action World (Unit {0})
  pub close : Action World (Unit {0})
  pub commit : Action World (Unit {0})
  pub execute : Statement → Action World (Unit {0})
  -- COPY of rows in CSV, and `execute_values` of rows with a template of so many placeholders
  pub copy : List (List (Value J)) → Action World (Unit {0})
  pub execute_values : ℕ → List (List (Value J)) → Action World (Unit {0})
  pub find_index : Action World Bool
  pub count : Action World ℕ

-- `c.get(k) or []`
unfoldable pub or_empty : Option (List Text) → List Text
or_empty none = []
or_empty (some l) = l

-- `v.replace('"', '\\"')`
unfoldable pub escape : Text → Text
escape [] = []
escape (c ∷ v) = if text_eq (c ∷ []) (codes "\"") then codes "\\\"" ++ escape v else c ∷ escape v

abbrev quoted : Text → Text
quoted v = codes "\"" ++ escape v ++ codes "\""

-- The values in quotes, with commas between them.
unfoldable pub quote_all : List Text → Text
unfolding escape
quote_all [] = []
quote_all (v ∷ []) = quoted v
quote_all (v ∷ u ∷ vs) = quoted v ++ codes "," ++ quote_all (u ∷ vs)

-- `_pg_array(values)`
unfoldable pub pg_array : List Text → Text
unfolding quote_all
pg_array values = codes "{" ++ quote_all values ++ codes "}"

unfoldable pub find {ℓ} : {A : Type ℓ} → Text → List (Text × A) → Option A
find k [] = none
find k ((j, a) ∷ d) = if text_eq k j then some a else find k d

unfoldable pub present {ℓ} : {A : Type ℓ} → Outcome A → Outcome (Option A)
present (ok a) = ok (some a)
present (raise e) = raise e

-- `_vector_literal` prints floats; it is a parameter. The constants COMMIT_ROWS and BATCH_ROWS are
-- too.
module _ {κ} {J : Type 0} (db : Database J) {V : Type κ} (literal : V → Text)
    (commit_rows batch_rows : ℕ) where
  -- The values of a chunk that has a url and a text.
  unfoldable pub values : Text → V → Piece J → Option J → Option J → Outcome (List (Value J))
  unfolding or_empty
  values id vec c none text = raise key_error
  values id vec c (some url) none = raise key_error
  values id vec c (some url) (some text) = ok (
      str id
      ∷ json c.article_id
      ∷ json url
      ∷ json c.title
      ∷ strs (or_empty c.heading_path)
      ∷ json c.chunk_index
      ∷ json c.n_chunks
      ∷ json text
      ∷ strs (or_empty c.tags)
      ∷ json c.source_type
      ∷ json c.language
      ∷ json c.published_at
      ∷ json c.quality_score
      ∷ str (literal vec)
      ∷ [])

  unfoldable pub values_of : Text → V → Option (Piece J) → Outcome (Option (List (Value J)))
  unfolding values present
  values_of id vec none = ok none
  values_of id vec (some c) = present (values id vec c c.url c.text)

  -- `_row_values(chunk_id, vec, chunks)`
  unfoldable pub row_values : Text → V → List (Text × Piece J) → Outcome (Option (List (Value J)))
  unfolding values_of find
  row_values id vec chunks = values_of id vec (find id chunks)

  -- The row as COPY takes it: the lists as array literals.
  unfoldable pub csv_value : Value J → Value J
  unfolding pg_array
  csv_value (json j) = json j
  csv_value (str s) = str s
  csv_value (strs l) = str (pg_array l)

  unfoldable pub csv_row : List (Value J) → List (Value J)
  unfolding csv_value
  csv_row [] = []
  csv_row (v ∷ row) = csv_value v ∷ csv_row row

  -- `_copy_rows(cur, conn, batch_rows)`
  unfoldable pub copy_rows : List (List (Value J)) → Action db.World (Unit {0})
  copy_rows rows = do db.copy rows; db.commit

  unfoldable pub copy_if : Bool → List (List (Value J)) → Action db.World (Unit {0})
  unfolding copy_rows
  copy_if true rows = copy_rows rows
  copy_if false rows = pure tt

  -- What is done with a row: the rest of the loop is given.
  unfoldable pub copy_next :
      (ℕ → List (List (Value J)) → Action db.World ℕ)
      → ℕ
      → List (List (Value J))
      → Option (List (Value J))
      → Action db.World ℕ
  unfolding copy_if csv_row
  copy_next rest copied batch none = rest copied batch
  copy_next rest copied batch (some row) =
      let batch' = batch ++ csv_row row ∷ [] in
      let full = leb commit_rows (length batch') in
      do copy_if full batch'; rest (suc copied) (if full then [] else batch')

  -- The loop of `copy_initial`, and the flush behind it.
  unfoldable pub copy_from :
      List (Text × Piece J) → List (Text × V) → ℕ → List (List (Value J)) → Action db.World ℕ
  unfolding row_values copy_next copy_if
  copy_from chunks [] copied batch = do copy_if (not (is_empty batch)) batch; pure copied
  copy_from chunks ((id, vec) ∷ pairs) copied batch = do
    row ← lift (row_values id vec chunks)
    copy_next (copy_from chunks pairs) copied batch row

  -- `copy_initial(conn, ids, vectors, chunks)`, where the pairs are `zip(ids, vectors)`.
  unfoldable pub copy_initial : List (Text × V) → List (Text × Piece J) → Action db.World ℕ
  unfolding copy_from
  copy_initial pairs chunks = copy_from chunks pairs 0 []

  -- The rows that are pending, written where `flush` says so; their number is returned.
  unfoldable pub flush_if : Bool → List (List (Value J)) → Action db.World ℕ
  flush_if true pending = do db.execute_values 14 pending; db.commit; pure (length pending)
  flush_if false pending = pure 0

  unfoldable pub upsert_next :
      (ℕ → List (List (Value J)) → Action db.World ℕ)
      → V
      → ℕ
      → List (List (Value J))
      → Option (List (Value J))
      → Action db.World ℕ
  unfolding flush_if
  upsert_next rest vec imported pending none = rest imported pending
  upsert_next rest vec imported pending (some row) =
      let pending' = pending ++ (row ++ str (literal vec) ∷ []) ∷ [] in
      let full = leb batch_rows (length pending') in
      do n ← flush_if full pending'; rest (imported + n) (if full then [] else pending')

  unfoldable pub upsert_from :
      List (Text × Piece J) → List (Text × V) → ℕ → List (List (Value J)) → Action db.World ℕ
  unfolding row_values upsert_next flush_if
  upsert_from chunks [] imported pending = do
    n ← flush_if (not (is_empty pending)) pending
    pure (imported + n)
  upsert_from chunks ((id, vec) ∷ pairs) imported pending = do
    row ← lift (row_values id vec chunks)
    upsert_next (upsert_from chunks pairs) vec imported pending row

  -- `upsert_incremental(conn, ids, vectors, chunks)`
  unfoldable pub upsert_incremental : List (Text × V) → List (Text × Piece J) → Action db.World ℕ
  unfolding upsert_from
  upsert_incremental pairs chunks = upsert_from chunks pairs 0 []

  unfoldable pub build_index : Action db.World (Unit {0})
  build_index = do db.execute set_memory; db.execute create_index; db.execute analyze; db.commit

  unfoldable pub drop_if : Bool → Action db.World (Unit {0})
  drop_if true = do db.execute drop_index; db.commit
  drop_if false = pure tt

  unfoldable pub write : Bool → Bool → List (Text × V) → List (Text × Piece J) → Action db.World ℕ
  unfolding drop_if copy_initial upsert_incremental
  write true had_index pairs chunks = do drop_if had_index; copy_initial pairs chunks
  write false had_index pairs chunks = upsert_incremental pairs chunks

  -- The body of the `try` in `main`, after `load_pairs`.
  unfoldable pub import_pairs :
      Bool → ℕ → List (Text × V) → List (Text × Piece J) → Action db.World (ℕ × ℕ)
  unfolding write build_index
  import_pairs initial dim pairs chunks = do
    db.execute (schema dim)
    db.commit
    had_index ← db.find_index
    n ← write initial had_index pairs chunks
    if initial || not had_index then build_index else db.commit
    total ← db.count
    pure (n, total)

  -- `main`: the numbers of rows written and held. What `load_pairs` reads of the files is given.
  unfoldable pub import_main :
      Bool → Outcome (ℕ × List (Text × V) × List (Text × Piece J)) → Action db.World (ℕ × ℕ)
  unfolding import_pairs
  import_main initial loaded = do
    db.connect
    finally (do (dim, pairs, chunks) ← lift loaded; import_pairs initial dim pairs chunks) db.close
