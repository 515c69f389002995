-- ===== src/Import/Indexed.antt =====
-- The index behind an import of py-processor/import_pgvector.py.
use webspider.Prelude.{
  ℕ, ◌≡◌, ◌∙◌, Bool, true, false, ◌||◌, not, List, [], ◌∷◌, Option, none, some, Text, if◌then◌else◌,
}
use webspider.Outcome.{Outcome, ok, raise}
use webspider.Services.Keeps.{Spares}
use webspider.Action.{Action, pure, lift, ◌>>=◌, ◌>>◌, finally, outcome_of, bind-elim}
use webspider.Import.{
  Piece, Value, Database, schema, create_index, analyze, flush_if, upsert_next, upsert_from,
  upsert_incremental, write, build_index, import_pairs, import_main,
}

-- A call that, when it returns, leaves a view of the database as it was.
pub record Stays {A : Type 0} {W : Type 0} (view : W → Bool) (f : Action W A) : Type 0 where
  pub at : (w : W) (a : A) → (f w).0 ≡ ok a → view (f w).1 ≡ view w

-- What PostgreSQL documents of the index, as the open transaction sees it (`indexed`) and as it is
-- committed: CREATE INDEX IF NOT EXISTS makes it in the transaction, the query over pg_indexes tells
-- whether the transaction sees it, COMMIT makes what it sees the committed state, and closing the
-- connection commits nothing.
pub record Index {J : Type 0} (db : Database J) (indexed committed : db.World → Bool) : Type 0 where
  pub commit_keeps : Stays indexed db.commit
  pub commits : (w : db.World) → (db.commit w).0 ≡ ok tt → committed (db.commit w).1 ≡ indexed w
  pub close : Spares committed db.close
  pub analyze_keeps : Stays indexed (db.execute analyze)
  pub execute_values :
      (n : ℕ) (rows : List (List (Value J))) → Stays indexed (db.execute_values n rows)
  pub count : Stays committed db.count
  pub found :
      (w : db.World) (b : Bool) → (db.find_index w).0 ≡ ok b → indexed (db.find_index w).1 ≡ b
  pub created :
      (w : db.World)
      → (db.execute create_index w).0 ≡ ok tt
      → indexed (db.execute create_index w).1 ≡ true

-- Run where `P` holds, an action that returns leaves `Q`.
record Leads {ℓ} {W : Type 0} {A : Type ℓ} (P Q : W → Type 0) (m : Action W A) : Type ℓ where
  at : (w : W) (a : A) → P w → (m w).0 ≡ ok a → Q (m w).1

Any : {W : Type 0} → W → Type 0
Any w = Unit

module _ {ℓ} {W : Type 0} {A : Type ℓ} where
  Leads-Any : {P : W → Type 0} (m : Action W A) → Leads P Any m
  unfolding Any
  Leads-Any m = record { at = λ w a p e. tt }

  Leads-pure : {P : W → Type 0} (a : A) → Leads P P (pure {W = W} a)
  unfolding pure
  Leads-pure a = record { at = λ w b p e. p }

  Leads-lift : {P : W → Type 0} (r : Outcome A) → Leads P P (lift {W = W} r)
  unfolding lift
  Leads-lift r = record { at = λ w b p e. p }

module _ {ℓ κ} {W : Type 0} {A : Type ℓ} {B : Type κ} where
  Leads-bind :
      {P Q R : W → Type 0} (m : Action W A) (f : A → Action W B)
      → Leads P Q m
      → ((a : A) → Leads Q R (f a))
      → Leads P R (m >>= f)
  Leads-bind {P = P} {Q = Q} {R = R} m f h hf = record {
    at = λ w b p.
        bind-elim m f w (λ r. r.0 ≡ ok b → R r.1) (λ a e. (hf a).at (m w).1 b (h.at w a p e))
          (λ x e bad. cc);
  }

module _ {κ} {J : Type 0} {db : Database J} {indexed committed : db.World → Bool}
    (laws : Index db indexed committed) {V : Type κ} (literal : V → Text)
    (commit_rows batch_rows : ℕ) where
  open laws use {close, commit_keeps, commits, analyze_keeps, execute_values, count, found, created}

  abbrev IsOpen : db.World → Type 0
  IsOpen w = indexed w ≡ true

  abbrev IsCommitted : db.World → Type 0
  IsCommitted w = committed w ≡ true

  Leads-Stays :
      {A : Type 0} {view : db.World → Bool} (f : Action db.World A)
      → Stays view f
      → Leads (λ w. view w ≡ true) (λ w. view w ≡ true) f
  Leads-Stays f h = record { at = λ w a p e. h.at w a e ∙ p }

  Leads-commit : Leads IsOpen IsCommitted db.commit
  Leads-commit = record { at = λ w a p e. commits w e ∙ p }

  Leads-total :
      (n : ℕ)
      → Leads IsCommitted IsCommitted
          (db.count >>= λ total. pure {W = db.World} {A = ℕ × ℕ} (n, total))
  Leads-total n = Leads-bind db.count _ (Leads-Stays _ count) (λ total. Leads-pure _)

  flush_if-Leads :
      (b : Bool) (pending : List (List (Value J)))
      → Leads IsOpen IsOpen (flush_if db literal commit_rows batch_rows b pending)
  unfolding flush_if ◌>>◌
  flush_if-Leads true pending =
      Leads-bind _ _ (Leads-Stays _ (execute_values 14 pending))
        (λ _. Leads-bind _ _ (Leads-Stays _ commit_keeps) (λ _. Leads-pure _))
  flush_if-Leads false pending = Leads-pure 0

  upsert_next-Leads :
      (rest : ℕ → List (List (Value J)) → Action db.World ℕ) (vec : V) (imported : ℕ)
      (pending : List (List (Value J))) (o : Option (List (Value J)))
      → ((n : ℕ) (p : List (List (Value J))) → Leads IsOpen IsOpen (rest n p))
      → Leads IsOpen IsOpen
          (upsert_next db literal commit_rows batch_rows rest vec imported pending o)
  unfolding upsert_next
  upsert_next-Leads rest vec imported pending none h = h imported pending
  upsert_next-Leads rest vec imported pending (some row) h =
      Leads-bind _ _ (flush_if-Leads _ _) (λ n. h _ _)

  upsert_from-Leads :
      (chunks : List (Text × Piece J)) (pairs : List (Text × V)) (imported : ℕ)
      (pending : List (List (Value J)))
      → Leads IsOpen IsOpen
          (upsert_from db literal commit_rows batch_rows chunks pairs imported pending)
  unfolding upsert_from
  upsert_from-Leads chunks [] imported pending =
      Leads-bind _ _ (flush_if-Leads _ _) (λ n. Leads-pure _)
  upsert_from-Leads chunks ((id, vec) ∷ pairs) imported pending =
      let rest = upsert_from-Leads chunks pairs in
      Leads-bind _ _ (Leads-lift _) (λ o. upsert_next-Leads _ vec imported pending o rest)

  build_index-Leads : Leads Any IsCommitted (build_index db literal commit_rows batch_rows)
  unfolding build_index ◌>>◌
  build_index-Leads = Leads-bind _ _ (Leads-Any _) (λ _.
      Leads-bind {Q = IsOpen} _ _ (record { at = λ w b p e. created w e })
        (λ _. Leads-bind _ _ (Leads-Stays _ analyze_keeps) (λ _. Leads-commit)))

  -- What follows the query for the index in `import_pairs`.
  abbrev written : Bool → Bool → List (Text × V) → List (Text × Piece J) → Action db.World (ℕ × ℕ)
  written initial had_index pairs chunks = do
    n ← write db literal commit_rows batch_rows initial had_index pairs chunks
    if initial || not had_index then build_index db literal commit_rows batch_rows else db.commit
    total ← db.count
    pure (n, total)

  written-Leads :
      (initial had_index : Bool) (pairs : List (Text × V)) (chunks : List (Text × Piece J))
      → Leads (λ w. indexed w ≡ had_index) IsCommitted (written initial had_index pairs chunks)
  unfolding write upsert_incremental ◌>>◌
  written-Leads true had_index pairs chunks =
      Leads-bind _ _ (Leads-Any _) (λ n. Leads-bind _ _ build_index-Leads (λ _. Leads-total n))
  written-Leads false false pairs chunks =
      Leads-bind _ _ (Leads-Any _) (λ n. Leads-bind _ _ build_index-Leads (λ _. Leads-total n))
  written-Leads false true pairs chunks =
      Leads-bind _ _ (upsert_from-Leads chunks pairs 0 [])
        (λ n. Leads-bind _ _ Leads-commit (λ _. Leads-total n))

  import_pairs-Leads :
      (initial : Bool) (dim : ℕ) (pairs : List (Text × V)) (chunks : List (Text × Piece J))
      → Leads Any IsCommitted
          (import_pairs db literal commit_rows batch_rows initial dim pairs chunks)
  unfolding import_pairs ◌>>◌
  import_pairs-Leads initial dim pairs chunks =
      Leads-bind (db.execute (schema dim)) _ (Leads-Any _) (λ _.
        Leads-bind db.commit _ (Leads-Any _) (λ _. record {
          at = λ w n p.
              bind-elim db.find_index (λ had_index. written initial had_index pairs chunks) w
                (λ r. r.0 ≡ ok n → IsCommitted r.1)
                (λ had_index e.
                  (written-Leads initial had_index pairs chunks).at (db.find_index w).1 n
                    (found w had_index e))
                (λ x e bad. cc);
        }))

  closed-Leads :
      (m : Action db.World (ℕ × ℕ))
      → Leads Any IsCommitted m
      → Leads Any IsCommitted (finally m db.close)
  unfolding finally outcome_of
  closed-Leads m h = record {
    at = λ w n p e. close.at (m w).1 ∙ h.at w n p (inner (m w).0 (db.close (m w).1).0 n e);
  }
    where
      inner :
          (o : Outcome (ℕ × ℕ)) (o' : Outcome (Unit {0})) (n : ℕ × ℕ)
          → outcome_of o o' ≡ ok n
          → o ≡ ok n
      inner o (ok t) n e = e
      inner o (raise x) n e = cc

  -- An import that returns leaves the vector index committed, whether it is the initial one, which
  -- drops it for the load, or an incremental one, with or without the index before; the database
  -- keeps the laws of `Index`.
  pub import_main-indexed :
      (initial : Bool) (loaded : Outcome (ℕ × List (Text × V) × List (Text × Piece J)))
      (w : db.World) (n : ℕ × ℕ)
      → (import_main db literal commit_rows batch_rows initial loaded w).0 ≡ ok n
      → committed (import_main db literal commit_rows batch_rows initial loaded w).1 ≡ true
  unfolding import_main ◌>>◌ Any
  import_main-indexed initial loaded w n =
      (Leads-bind {P = Any} db.connect _ (Leads-Any _) (λ a. closed-Leads _ (
          Leads-bind (lift loaded) _ (Leads-Any _)
            (λ given. import_pairs-Leads initial given.0 given.1 given.2)))).at
        w n tt
