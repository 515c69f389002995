-- ===== src/Import/Upserted.antt =====
-- What `upsert_incremental` of py-processor/import_pgvector.py writes.
use webspider.Prelude.{
  ℕ, ◌+◌, ◌<◌, ◌≡◌, refl, sym, ap, ◌∙◌, arith, Bool, true, false, List, [], ◌∷◌, ◌++◌, Option, none,
  some, Text, length, leb, All, All-append, length-append,
}
use webspider.Outcome.{Outcome, ok, raise, ok-injective}
use webspider.Action.{pure, lift, ◌>>=◌, ◌>>◌, bind-elim}
use webspider.Import.{
  Piece, Value, str, Database, values, values_of, row_values, present, flush_if, upsert_next,
  upsert_from, upsert_incremental, find,
}
use webspider.Import.Copied.{keep_row, found}

-- What psycopg2 documents of `execute_values`: the values of a row fill the placeholders of the
-- template, and a row of another length is an exception.
pub record Templates {J : Type 0} (db : Database J) : Type 0 where
  pub filled :
      (places : ℕ) (rows : List (List (Value J))) (w : db.World)
      → (db.execute_values places rows w).0 ≡ ok tt
      → All (λ row. length row ≡ places) rows

module _ {κ} {J : Type 0} {db : Database J} (laws : Templates db) {V : Type κ} (literal : V → Text)
    (commit_rows batch_rows : ℕ) where
  open laws use {filled}

  abbrev Long : List (Value J) → Type 0
  Long row = length row ≡ 15

  -- A flush of rows that are too long raises.
  flush_if-Long :
      (b : Bool) (pending : List (List (Value J))) (w : db.World) (n : ℕ)
      → All Long pending
      → 0 < length pending
      → (flush_if db literal commit_rows batch_rows b pending w).0 ≡ ok n
      → b ≡ false
  unfolding flush_if pure ◌>>=◌ ◌>>◌
  flush_if-Long false pending w n long pos = λ e. refl
  flush_if-Long true [] w n long pos = elim pos [ ]
  flush_if-Long true (p ∷ pending) w n long pos =
      bind-elim (db.execute_values 14 (p ∷ pending)) _ w
        (λ (r : Outcome ℕ × db.World). r.0 ≡ ok n → true ≡ false)
        (λ a h e.
          let fits = filled 14 (p ∷ pending) w h in
          let clash : ⊥ = omega (arith, fits.0, long.0) in elim clash [ ])
        (λ x h bad. cc)

  values-length :
      (id : Text) (vec : V) (c : Piece J) (url text : Option J) (row : List (Value J))
      → values db literal commit_rows batch_rows id vec c url text ≡ ok row
      → length row ≡ 14
  unfolding values
  values-length id vec c none text row e = cc
  values-length id vec c (some url) none row e = cc
  values-length id vec c (some url) (some text) row e = rw (sym (ok-injective e)) refl

  values_of-length :
      (id : Text) (vec : V) (c : Option (Piece J)) (row : List (Value J))
      → values_of db literal commit_rows batch_rows id vec c ≡ ok (some row)
      → length row ≡ 14
  unfolding values_of present
  values_of-length id vec none row e = cc
  values_of-length id vec (some c) row e =
      by_values (values db literal commit_rows batch_rows id vec c c.url c.text) refl e
    where
      by_values :
          (o : Outcome (List (Value J)))
          → values db literal commit_rows batch_rows id vec c c.url c.text ≡ o
          → present o ≡ ok (some row)
          → length row ≡ 14
      by_values (ok r) h e = values-length id vec c c.url c.text row cc
      by_values (raise x) h e = cc

  row_values-length :
      (id : Text) (vec : V) (chunks : List (Text × Piece J)) (row : List (Value J))
      → row_values db literal commit_rows batch_rows id vec chunks ≡ ok (some row)
      → length row ≡ 14
  unfolding row_values
  row_values-length id vec chunks row e = values_of-length id vec (find id chunks) row e

  -- A return: nothing was pending and nothing was found.
  pub record Nothing (expected : ℕ) (pending rows : List (List (Value J))) (n : ℕ) : Type 0 where
    pub count : n ≡ expected
    pub none_pending : pending ≡ []
    pub none_found : rows ≡ []

  abbrev AllNothing :
      ℕ → List (List (Value J)) → List (List (Value J)) → Outcome ℕ × db.World → Type 0
  AllNothing expected pending rows r = (n : ℕ) → r.0 ≡ ok n → Nothing expected pending rows n

  abbrev Rest : List (Text × Piece J) → List (Text × V) → Type 0
  Rest chunks pairs =
      (imported : ℕ) (pending : List (List (Value J))) (w : db.World)
      → All Long pending
      → AllNothing imported pending (found db literal commit_rows batch_rows chunks pairs)
          (upsert_from db literal commit_rows batch_rows chunks pairs imported pending w)

  length-snoc : (xs : List (List (Value J))) (x : List (Value J)) → 0 < length (xs ++ x ∷ [])
  length-snoc [] x = omega arith
  length-snoc (y ∷ xs) x = omega arith

  -- A row that was found is never written: its flush raises, or the one that the rest ends with.
  upsert_next-Nothing :
      (chunks : List (Text × Piece J)) (pairs : List (Text × V)) (vec : V)
      (o : Option (List (Value J))) (imported : ℕ) (pending : List (List (Value J))) (w : db.World)
      → ((row : List (Value J)) → o ≡ some row → length row ≡ 14)
      → All Long pending
      → Rest chunks pairs
      → AllNothing imported pending
          (keep_row db literal commit_rows batch_rows
            (ok o)
            (found db literal commit_rows batch_rows chunks pairs))
          (upsert_next db literal commit_rows batch_rows
            (upsert_from db literal commit_rows batch_rows chunks pairs)
            vec
            imported
            pending
            o
            w)
  unfolding upsert_next
  upsert_next-Nothing chunks pairs vec none imported pending w short long rest =
      rest imported pending w long
  upsert_next-Nothing chunks pairs vec (some row) imported pending w short long rest =
      bind-elim
        (flush_if db literal commit_rows batch_rows (leb batch_rows (length pending')) pending') _ w
        (AllNothing imported pending (row ∷ found db literal commit_rows batch_rows chunks pairs))
        (λ a h n e.
          let unflushed =
            flush_if-Long (leb batch_rows (length pending')) pending' w a long'
              (length-snoc pending long_row) h in
          let after = rest (imported + a) pending' _ long' n (rw unflushed at e) in
          let clash : ⊥ =
            omega (arith, ap length after.none_pending, length-snoc pending long_row) in
          elim clash [ ])
        (λ x h n bad. cc)
    where
      long_row : List (Value J)
      long_row = row ++ str (literal vec) ∷ []

      pending' : List (List (Value J))
      pending' = pending ++ long_row ∷ []

      long' : All Long pending'
      long' =
          All-append Long pending (long_row ∷ []) long
            (omega (arith, short row refl, length-append row (str (literal vec) ∷ [])), tt)

  upsert_from-Nothing :
      (chunks : List (Text × Piece J)) (pairs : List (Text × V)) → Rest chunks pairs
  unfolding upsert_from found lift flush_if pure ◌>>=◌
  upsert_from-Nothing chunks [] imported [] w long = λ n e. record {
    count = omega (arith, ok-injective e);
    none_pending = refl;
    none_found = refl;
  }
  upsert_from-Nothing chunks [] imported (p ∷ pending) w long =
      bind-elim (flush_if db literal commit_rows batch_rows true (p ∷ pending)) _ w
        (AllNothing imported (p ∷ pending) [])
        (λ a h n e. let kept = flush_if-Long true (p ∷ pending) w a long (omega arith) h in cc)
        (λ x h n bad. cc)
  upsert_from-Nothing chunks ((id, vec) ∷ pairs) imported pending w long =
      let rest = upsert_from-Nothing chunks pairs in
      bind-elim (lift (row_values db literal commit_rows batch_rows id vec chunks))
        (upsert_next db literal commit_rows batch_rows
          (upsert_from db literal commit_rows batch_rows chunks pairs) vec imported pending)
        w
        (AllNothing imported pending
          (found db literal commit_rows batch_rows chunks ((id, vec) ∷ pairs)))
        (λ o h. rw h (
          upsert_next-Nothing chunks pairs vec o imported pending w
            (λ row e. row_values-length id vec chunks row (h ∙ ap ok e)) long rest))
        (λ x h n bad. cc)

  -- An incremental import that returns has found no chunk for any of its vectors and written no row,
  -- where `execute_values` refuses a row whose length is not the template's: with a row to write the
  -- import raises.
  pub upsert_incremental-Nothing :
      (pairs : List (Text × V)) (chunks : List (Text × Piece J)) (w : db.World) (n : ℕ)
      → (upsert_incremental db literal commit_rows batch_rows pairs chunks w).0 ≡ ok n
      → (n ≡ 0) × (found db literal commit_rows batch_rows chunks pairs ≡ [])
  unfolding upsert_incremental
  upsert_incremental-Nothing pairs chunks w n e =
      let nothing = upsert_from-Nothing chunks pairs 0 [] w tt n e in
      (nothing.count, nothing.none_found)
