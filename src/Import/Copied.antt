-- ===== src/Import/Copied.antt =====
-- What `copy_initial` of py-processor/import_pgvector.py commits.
use mathlib.Core.List.{append_assoc, append-nil}
use webspider.Prelude.{
  ℕ, suc, ◌+◌, ◌≡◌, sym, ap, ◌∙◌, arith, Bool, true, false, List, [], ◌∷◌, ◌++◌, Option, none, some,
  Text, length, leb, map, if◌then◌else◌,
}
use webspider.Outcome.{Outcome, ok, raise, ok-injective}
use webspider.Action.{pure, lift, ◌>>◌, bind-elim}
use webspider.Import.{
  Piece, Value, Database, row_values, csv_row, copy_rows, copy_if, copy_next, copy_from,
  copy_initial,
}

-- What PostgreSQL documents of COPY and COMMIT: the rows of the open transaction, and the committed
-- ones.
pub record Transactions {J : Type 0} (db : Database J)
    (open_rows committed : db.World → List (List (Value J))) : Type 0 where
  pub copied :
      (rows : List (List (Value J))) (w : db.World)
      → (db.copy rows w).0 ≡ ok tt
      → (open_rows (db.copy rows w).1 ≡ open_rows w ++ rows)
        × (committed (db.copy rows w).1 ≡ committed w)
  pub closed :
      (w : db.World)
      → (db.commit w).0 ≡ ok tt
      → (open_rows (db.commit w).1 ≡ []) × (committed (db.commit w).1 ≡ committed w ++ open_rows w)

-- The rows of the pairs whose chunk is there, in order.
module _ {κ} {J : Type 0} (db : Database J) {V : Type κ} (literal : V → Text)
    (commit_rows batch_rows : ℕ) where
  abbrev pub keep_row :
      Outcome (Option (List (Value J))) → List (List (Value J)) → List (List (Value J))
  keep_row (ok (some row)) rows = row ∷ rows
  keep_row (ok none) rows = rows
  keep_row (raise e) rows = rows

  unfoldable pub found : List (Text × Piece J) → List (Text × V) → List (List (Value J))
  found chunks [] = []
  found chunks ((id, vec) ∷ pairs) =
      keep_row (row_values db literal commit_rows batch_rows id vec chunks) (found chunks pairs)

module _ {κ} {J : Type 0} {db : Database J} {open_rows committed : db.World → List (List (Value J))}
    (laws : Transactions db open_rows committed) {V : Type κ} (literal : V → Text)
    (commit_rows batch_rows : ℕ) where
  open laws use {copied, closed}

  -- The whole of `rows` is committed, and no transaction is left open.
  record Committed (w : db.World) (rows : List (List (Value J))) (w' : db.World) : Type 0 where
    committed_rows : committed w' ≡ committed w ++ rows
    none_open : open_rows w' ≡ []

  copy_rows-Committed :
      (rows : List (List (Value J))) (w : db.World)
      → open_rows w ≡ []
      → (copy_rows db literal commit_rows batch_rows rows w).0 ≡ ok tt
      → Committed w rows (copy_rows db literal commit_rows batch_rows rows w).1
  unfolding copy_rows ◌>>◌
  copy_rows-Committed rows w fresh =
      bind-elim (db.copy rows) (λ _. db.commit) w
        (λ (r : Outcome (Unit {0}) × db.World). r.0 ≡ ok tt → Committed w rows r.1)
        (λ a h h'.
          let (opened, same) = copied rows w h in
          let (empty, all) = closed (db.copy rows w).1 h' in
          record { committed_rows = cc; none_open = empty })
        (λ e h bad. cc)

  copy_if-Committed :
      (b : Bool) (rows : List (List (Value J))) (w : db.World)
      → open_rows w ≡ []
      → (copy_if db literal commit_rows batch_rows b rows w).0 ≡ ok tt
      → Committed w (if b then rows else []) (copy_if db literal commit_rows batch_rows b rows w).1
  unfolding copy_if pure
  copy_if-Committed true rows w fresh h = copy_rows-Committed rows w fresh h
  copy_if-Committed false rows w fresh h = record {
    committed_rows = sym (append-nil (committed w));
    none_open = fresh;
  }

  -- A return: what it counts, and what is committed.
  pub record Done (w : db.World) (expected : ℕ) (rows : List (List (Value J))) (n : ℕ)
      (w' : db.World) : Type 0 where
    pub count : n ≡ expected
    pub committed_rows : committed w' ≡ committed w ++ rows
    pub none_open : open_rows w' ≡ []

  abbrev csv_rows : List (List (Value J)) → List (List (Value J))
  csv_rows = map (csv_row db literal commit_rows batch_rows)

  abbrev AllDone : db.World → ℕ → List (List (Value J)) → Outcome ℕ × db.World → Type 0
  AllDone w expected rows r = (n : ℕ) → r.0 ≡ ok n → Done w expected rows n r.1

  flush-Done :
      (b : Bool) (copied_rows : ℕ) (batch : List (List (Value J))) (w : db.World)
      → open_rows w ≡ []
      → AllDone w copied_rows
          (if b then batch else [])
          ((copy_if db literal commit_rows batch_rows b batch >> pure copied_rows) w)
  unfolding ◌>>◌ pure
  flush-Done b copied_rows batch w fresh =
      bind-elim (copy_if db literal commit_rows batch_rows b batch) (λ _. pure copied_rows) w
        (AllDone w copied_rows (if b then batch else []))
        (λ a h n e.
          let done = copy_if-Committed b batch w fresh h in
          record {
            count = sym (ok-injective e);
            committed_rows = done.committed_rows;
            none_open = done.none_open;
          })
        (λ x h n bad. cc)

  -- The rest of the loop, from any counter and batch.
  abbrev Rest : List (Text × Piece J) → List (Text × V) → Type 0
  Rest chunks pairs =
      (copied_rows : ℕ) (batch : List (List (Value J))) (w : db.World)
      → open_rows w ≡ []
      → AllDone w (copied_rows + length (found db literal commit_rows batch_rows chunks pairs))
          (batch ++ csv_rows (found db literal commit_rows batch_rows chunks pairs))
          (copy_from db literal commit_rows batch_rows chunks pairs copied_rows batch w)

  copy_full-Done :
      (chunks : List (Text × Piece J)) (pairs : List (Text × V)) (b : Bool) (copied_rows : ℕ)
      (batch : List (List (Value J))) (w : db.World)
      → open_rows w ≡ []
      → Rest chunks pairs
      → AllDone w
          (copied_rows + length (found db literal commit_rows batch_rows chunks pairs))
          (batch ++ csv_rows (found db literal commit_rows batch_rows chunks pairs))
          ((copy_if db literal commit_rows batch_rows b batch
              >> copy_from db literal commit_rows batch_rows chunks pairs copied_rows
                  (if b then [] else batch))
            w)
  unfolding ◌>>◌
  copy_full-Done chunks pairs b copied_rows batch w fresh rest =
      bind-elim (copy_if db literal commit_rows batch_rows b batch)
        (λ _.
          copy_from db literal commit_rows batch_rows chunks pairs copied_rows
            (if b then [] else batch))
        w
        (AllDone w (copied_rows + length (found db literal commit_rows batch_rows chunks pairs))
          (batch ++ csv_rows (found db literal commit_rows batch_rows chunks pairs)))
        (λ a h n e.
          let flushed = copy_if-Committed b batch w fresh h in
          let done =
            rest copied_rows (if b then [] else batch)
              (copy_if db literal commit_rows batch_rows b batch w).1 flushed.none_open n e in
          record {
            count = done.count;
            committed_rows = joined b flushed.committed_rows done.committed_rows;
            none_open = done.none_open;
          })
        (λ x h n bad. cc)
    where
      rows : List (List (Value J))
      rows = csv_rows (found db literal commit_rows batch_rows chunks pairs)

      joined :
          (b : Bool) {us vs : List (List (Value J))}
          → us ≡ committed w ++ (if b then batch else [])
          → vs ≡ us ++ ((if b then [] else batch) ++ rows)
          → vs ≡ committed w ++ (batch ++ rows)
      joined true e f = rw (f, e) (append_assoc (committed w) batch rows)
      joined false e f = rw (f, e) (ap (λ us. us ++ (batch ++ rows)) (append-nil (committed w)))

  copy_next-Done :
      (chunks : List (Text × Piece J)) (pairs : List (Text × V)) (o : Option (List (Value J)))
      (copied_rows : ℕ) (batch : List (List (Value J))) (w : db.World)
      → open_rows w ≡ []
      → Rest chunks pairs
      → AllDone w
          (copied_rows
            + length (
                keep_row db literal commit_rows batch_rows
                  (ok o)
                  (found db literal commit_rows batch_rows chunks pairs)))
          (batch
            ++ csv_rows (
                keep_row db literal commit_rows batch_rows
                  (ok o)
                  (found db literal commit_rows batch_rows chunks pairs)))
          (copy_next db literal commit_rows batch_rows
            (copy_from db literal commit_rows batch_rows chunks pairs)
            copied_rows
            batch
            o
            w)
  unfolding copy_next
  copy_next-Done chunks pairs none copied_rows batch w fresh rest = rest copied_rows batch w fresh
  copy_next-Done chunks pairs (some row) copied_rows batch w fresh rest = λ n e.
      let batch' = batch ++ csv_row db literal commit_rows batch_rows row ∷ [] in
      let done =
        copy_full-Done chunks pairs (leb commit_rows (length batch')) (suc copied_rows) batch' w
          fresh rest n e in
      record {
        count = omega (arith, done.count);
        committed_rows =
            done.committed_rows
            ∙ ap (λ us. committed w ++ us)
                (append_assoc batch (csv_row db literal commit_rows batch_rows row ∷ []) _);
        none_open = done.none_open;
      }

  copy_from-Done : (chunks : List (Text × Piece J)) (pairs : List (Text × V)) → Rest chunks pairs
  unfolding copy_from found lift
  copy_from-Done chunks [] copied_rows [] w fresh = λ n e.
      let done = flush-Done false copied_rows [] w fresh n e in
      record {
        count = omega (arith, done.count);
        committed_rows = done.committed_rows;
        none_open = done.none_open;
      }
  copy_from-Done chunks [] copied_rows (b ∷ batch) w fresh = λ n e.
      let done = flush-Done true copied_rows (b ∷ batch) w fresh n e in
      record {
        count = omega (arith, done.count);
        committed_rows =
            done.committed_rows ∙ ap (λ us. committed w ++ us) (sym (append-nil (b ∷ batch)));
        none_open = done.none_open;
      }
  copy_from-Done chunks ((id, vec) ∷ pairs) copied_rows batch w fresh =
      let rest = copy_from-Done chunks pairs in
      bind-elim (lift (row_values db literal commit_rows batch_rows id vec chunks))
        (copy_next db literal commit_rows batch_rows
          (copy_from db literal commit_rows batch_rows chunks pairs) copied_rows batch)
        w
        (AllDone w
          (copied_rows
            + length (found db literal commit_rows batch_rows chunks ((id, vec) ∷ pairs)))
          (batch ++ csv_rows (found db literal commit_rows batch_rows chunks ((id, vec) ∷ pairs))))
        (λ o h. rw h (copy_next-Done chunks pairs o copied_rows batch w fresh rest))
        (λ x h n bad. cc)

  -- A bulk load that starts outside a transaction and returns has committed the row of every pair
  -- whose chunk is there, in order and once, leaves no transaction open, and returns the number of
  -- those rows, for any number of rows in a transaction; the database keeps the laws of
  -- `Transactions`.
  pub copy_initial-Done :
      (pairs : List (Text × V)) (chunks : List (Text × Piece J)) (w : db.World) (n : ℕ)
      → open_rows w ≡ []
      → (copy_initial db literal commit_rows batch_rows pairs chunks w).0 ≡ ok n
      → Done w
          (length (found db literal commit_rows batch_rows chunks pairs))
          (map
            (csv_row db literal commit_rows batch_rows)
            (found db literal commit_rows batch_rows chunks pairs))
          n
          (copy_initial db literal commit_rows batch_rows pairs chunks w).1
  unfolding copy_initial
  copy_initial-Done pairs chunks w n fresh e =
      let done = copy_from-Done chunks pairs 0 [] w fresh n e in
      record {
        count = omega (arith, done.count);
        committed_rows = done.committed_rows;
        none_open = done.none_open;
      }
