-- ===== src/Tests/Imports.antt =====
-- The import of chunks and vectors at concrete inputs.
use webspider.Prelude.{
  ℕ, ◌≡◌, refl, arith, Bool, true, false, List, [], ◌∷◌, ◌++◌, some, none, Text, codes, length, map,
  ◌==◌, All, if◌then◌else◌, text_eq,
}
use webspider.Outcome.{Outcome, ok, raise, type_error, ok-injective}
use webspider.Action.{Action, lift, pure, ◌>>=◌, ◌>>◌, finally}
use webspider.Import.{
  Piece, Value, Database, copy_initial, upsert_incremental, csv_row, Statement, drop_index,
  create_index, import_main,
}
use webspider.Import.Copied.{Transactions, found, Done, copy_initial-Done}
use webspider.Import.Indexed.{Index, import_main-indexed}
use webspider.Import.Upserted.{Templates, upsert_incremental-Nothing}

-- A JSON value is a number, and so is a vector.
abbrev Rows : Type 0
Rows = List (List (Value ℕ))

-- The rows of the open transaction, and those committed before it.
record Table : Type 0 where
  open_rows : Rows
  committed : Rows
  indexed : Bool
  index_committed : Bool

unfoldable fits : ℕ → Rows → Bool
fits n [] = true
fits n (row ∷ rows) = if length row == n then fits n rows else false

abbrev insert_if : Bool → Rows → Action Table (Unit {0})
insert_if true rows w = (ok tt, record w { open_rows = w.open_rows ++ rows })
insert_if false rows w = (raise type_error, w)

abbrev run_statement : Statement → Table → Outcome (Unit {0}) × Table
run_statement drop_index w = (ok tt, record w { indexed = false })
run_statement create_index w = (ok tt, record w { indexed = true })
run_statement _ w = (ok tt, w)

-- What is done with rows leaves the index alone.
insert_if-indexed :
    (b : Bool) (rows : Rows) (w : Table) → (insert_if b rows w).1.indexed ≡ w.indexed
insert_if-indexed true rows w = refl
insert_if-indexed false rows w = refl

abbrev table : Database ℕ
table = record {
  World = Table;
  connect = λ w. (ok tt, w);
  close = λ w. (ok tt, record w { open_rows = []; indexed = w.index_committed });
  commit = λ w. (
    ok tt,
    record w {
      open_rows = [];
      committed = w.committed ++ w.open_rows;
      index_committed = w.indexed;
    },
  );
  execute = run_statement;
  copy = λ rows. insert_if true rows;
  execute_values = λ n rows. insert_if (fits n rows) rows;
  find_index = λ w. (ok w.indexed, w);
  count = λ w. (ok (length w.committed), w);
}

table-Transactions : Transactions table (λ w. w.open_rows) (λ w. w.committed)
table-Transactions = record { copied = λ rows w e. (refl, refl); closed = λ w e. (refl, refl) }

fits-All : (n : ℕ) (rows : Rows) → fits n rows ≡ true → All (λ row. length row ≡ n) rows
unfolding fits
fits-All n [] e = tt
fits-All n (row ∷ rows) e = let rest = fits-All n rows in ground arith

insert_if-fits :
    (n : ℕ) (rows : Rows) (b : Bool) (w : Table)
    → fits n rows ≡ b
    → (insert_if b rows w).0 ≡ ok tt
    → fits n rows ≡ true
insert_if-fits n rows true w h e = h
insert_if-fits n rows false w h e = cc

table-Templates : Templates table
table-Templates = record {
  filled = λ n rows w e. fits-All n rows (insert_if-fits n rows (fits n rows) w refl e);
}

abbrev piece : Piece ℕ
piece = record {
  article_id = 1;
  url = some 2;
  title = 3;
  heading_path = none;
  chunk_index = 0;
  n_chunks = 1;
  text = some 4;
  tags = some (codes "a" ∷ codes "b" ∷ []);
  source_type = 5;
  language = 6;
  published_at = 7;
  quality_score = 8;
}

abbrev chunks : List (Text × Piece ℕ)
chunks = (codes "p", piece) ∷ (codes "q", piece) ∷ (codes "r", piece) ∷ []

-- One id has no chunk.
abbrev pairs : List (Text × ℕ)
pairs = (codes "p", 0) ∷ (codes "x", 1) ∷ (codes "q", 2) ∷ (codes "r", 3) ∷ []

abbrev literal : ℕ → Text
literal n = codes "[]"

abbrev empty : Table
empty = record { open_rows = []; committed = []; indexed = true; index_committed = true }

-- Two rows in each transaction.
copied_run : (copy_initial table literal 2 2 pairs chunks empty).0 ≡ ok 3
unfolding copy_initial ◌>>=◌ lift text_eq ◌>>◌ pure
copied_run = refl

copy_initial-Done_example :
    Done table-Transactions literal 2 2 empty
      (length (found table literal 2 2 chunks pairs))
      (map (csv_row table literal 2 2) (found table literal 2 2 chunks pairs))
      3
      (copy_initial table literal 2 2 pairs chunks empty).1
copy_initial-Done_example =
    copy_initial-Done table-Transactions literal 2 2 pairs chunks empty 3 refl copied_run

-- An incremental import of a chunk that is there raises.
upserted_run : (upsert_incremental table literal 2 2 pairs chunks empty).0 ≡ raise type_error
unfolding upsert_incremental ◌>>=◌ lift text_eq pure ◌>>◌ fits
upserted_run = refl

-- One without any returns.
unknown_run : (upsert_incremental table literal 2 2 ((codes "x", 1) ∷ []) chunks empty).0 ≡ ok 0
unfolding upsert_incremental ◌>>=◌ lift text_eq pure
unknown_run = refl

upsert_incremental-Nothing_example :
    (length {A = ℕ} [] ≡ 0) × (found table literal 2 2 chunks ((codes "x", 1) ∷ []) ≡ [])
upsert_incremental-Nothing_example =
    upsert_incremental-Nothing table-Templates literal 2 2 ((codes "x", 1) ∷ []) chunks empty 0
      unknown_run

table-Index : Index table (λ w. w.indexed) (λ w. w.index_committed)
table-Index = record {
  commit_keeps = record { at = λ w a e. refl };
  commits = λ w e. refl;
  close = record { at = λ w. refl };
  analyze_keeps = record { at = λ w a e. refl };
  execute_values = λ n rows. record { at = λ w a e. insert_if-indexed (fits n rows) rows w };
  count = record { at = λ w a e. refl };
  found = λ w b e. ok-injective e;
  created = λ w e. refl;
}

-- An initial import of the three rows over a table that has the index.
initial_run : (import_main table literal 2 2 true (ok (1, pairs, chunks)) empty).0 ≡ ok (3, 3)
unfolding import_main ◌>>◌ finally lift text_eq pure
initial_run = refl

import_main-indexed_example :
    (import_main table literal 2 2 true (ok (1, pairs, chunks)) empty).1.index_committed ≡ true
import_main-indexed_example =
    import_main-indexed table-Index literal 2 2 true (ok (1, pairs, chunks)) empty (3, 3)
      initial_run
