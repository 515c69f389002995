-- ===== src/SyncVectors.antt =====
-- py-processor/sync_vectors.py: what is ingested, the chunks of the newer articles, and the chain of
-- the three stages. embed_chunks.run and import_pgvector.main are reached through `Stages`, by what
-- they do to the world; the two files between the stages are part of it.
use webspider.Prelude.{
  ℕ, ◌≤◌, ◌==◌, max, ◌≡◌, refl, ap, ◌∙◌, arith, Bool, true, false, ◌&&◌, List, [], ◌∷◌, ◌++◌,
  Option, none, some, Text, length, All, if◌then◌else◌,
}
use webspider.Outcome.{Outcome, ok, raise}
use webspider.Services.Keeps.{Spares}
use webspider.Action.{Action, pure, ◌>>=◌, ◌>>◌}
use webspider.Action.Borrowing.{Pool, borrow, borrow-Spares}
use webspider.Action.Sparing.{Spares-bind, Spares-then, Spares-pure}
use webspider.RagExport.{ArticleRow, CorpusLine, article_to_chunks, export_rows}

pub record Stages (J : Type 0) : Type 1 where
  pub World : Type 0
  pub get_conn : Action World (Unit {0})
  pub put_conn : Action World (Unit {0})
  pub rollback : Action World (Unit {0})
  -- the greatest article id of article_chunks
  pub max_ingested : Action World (Option ℕ)
  -- the articles above an id, in order
  pub newer : ℕ → Action World (List (ArticleRow J))
  -- TMP_CHUNKS, written anew
  pub write_chunks : List (CorpusLine J) → Action World (Unit {0})
  pub embed_run : Action World (Unit {0})
  pub import_main : Bool → Action World (Unit {0})

-- `fetchone()[0] or 0`
abbrev or_zero : Option ℕ → ℕ
or_zero none = 0
or_zero (some n) = n

-- What `main` knows when the connection is back.
pub record Exported : Type 0 where
  pub last_id : ℕ
  pub written : ℕ
  pub max_id : ℕ

module _ {J : Type 0} (st : Stages J) (url_hash : Text → Text) where
  -- `except Exception`: the transaction is rolled back, and nothing counts as ingested.
  unfoldable pub or_rolled_back : Outcome (Option ℕ) → Action st.World ℕ
  or_rolled_back (ok found) = pure (or_zero found)
  or_rolled_back (raise e) = do st.rollback; pure 0

  unfoldable pub max_ingested_article_id : Action st.World ℕ
  unfolding or_rolled_back
  max_ingested_article_id w = let (o, w') = st.max_ingested w in or_rolled_back o w'

  -- `export_new_chunks`: how many lines are written, and the greatest id.
  unfoldable pub export_new_chunks : ℕ → Action st.World (ℕ × ℕ)
  unfolding export_rows
  export_new_chunks since_id = do
    rows ← st.newer since_id
    let (lines, max_id) = export_rows url_hash 1200 150 30 since_id rows
    st.write_chunks lines
    pure (length lines, max_id)

  unfoldable pub start_id : Bool → Action st.World ℕ
  unfolding max_ingested_article_id
  start_id true = pure 0
  start_id false = max_ingested_article_id

  -- The part of `main` that has a connection.
  unfoldable pub export_stage : Bool → Action st.World Exported
  unfolding start_id export_new_chunks
  export_stage initial = do
    last_id ← start_id initial
    (written, max_id) ← export_new_chunks last_id
    pure (record { last_id = last_id; written = written; max_id = max_id })

  -- The stages behind it; `none` is nothing to sync.
  unfoldable pub later_stages : Bool → Exported → Action st.World (Option ℕ)
  later_stages initial e =
      if e.written == 0
      then pure none
      else do st.embed_run; st.import_main (initial && e.last_id == 0); pure (some e.max_id)

  -- `main(initial)`, where the settings of the embedding backend are there; the id is the one that is
  -- printed at the end.
  unfoldable pub sync_main : Bool → Action st.World (Option ℕ)
  unfolding borrow export_stage later_stages
  sync_main initial = do
    e ← borrow st.get_conn st.put_conn (export_stage initial)
    later_stages initial e

  -- Every row has an id of at most `top`.
  abbrev Below : ℕ → List (ArticleRow J) → Type 0
  Below top rows = All (λ (r : ArticleRow J). r.id ≤ top) rows

  -- The lines of all the rows, in their order.
  abbrev all_lines : List (ArticleRow J) → List (CorpusLine J)
  all_lines [] = []
  all_lines (row ∷ rows) = article_to_chunks url_hash 1200 150 30 row ++ all_lines rows

  export_rows-top :
      (since : ℕ) (rows : List (ArticleRow J))
      → (since ≤ (export_rows url_hash 1200 150 30 since rows).1)
        × Below (export_rows url_hash 1200 150 30 since rows).1 rows
        × ((export_rows url_hash 1200 150 30 since rows).0 ≡ all_lines rows)
  unfolding export_rows
  export_rows-top since [] = (omega arith, tt, refl)
  export_rows-top since (row ∷ rows) =
      let (low, below, same) = export_rows-top (max since row.id) rows in
      (
        omega arith,
        (omega arith, below),
        ap (λ l. article_to_chunks url_hash 1200 150 30 row ++ l) same,
      )

  module _ (out : st.World → ℕ) (pool : Pool st.get_conn st.put_conn out)
      (rollback : Spares out st.rollback) (max_ingested : Spares out st.max_ingested)
      (newer : (n : ℕ) → Spares out (st.newer n))
      (write_chunks : (l : List (CorpusLine J)) → Spares out (st.write_chunks l))
      (embed_run : Spares out st.embed_run)
      (import_main : (b : Bool) → Spares out (st.import_main b)) where
    or_rolled_back-Spares : (o : Outcome (Option ℕ)) → Spares out (or_rolled_back o)
    unfolding or_rolled_back
    or_rolled_back-Spares (ok found) = Spares-pure _
    or_rolled_back-Spares (raise e) = Spares-then _ _ rollback (Spares-pure 0)

    start_id-Spares : (initial : Bool) → Spares out (start_id initial)
    unfolding start_id max_ingested_article_id
    start_id-Spares true = Spares-pure 0
    start_id-Spares false = record {
      at = λ w.
          (or_rolled_back-Spares (st.max_ingested w).0).at (st.max_ingested w).1
          ∙ max_ingested.at w;
    }

    later_stages-Spares : (initial : Bool) (e : Exported) → Spares out (later_stages initial e)
    unfolding later_stages
    later_stages-Spares initial e = by (e.written == 0)
      where
        by :
            (b : Bool)
            → Spares out (
                if b then pure none else (do
                  st.embed_run
                  st.import_main (initial && e.last_id == 0)
                  pure (some e.max_id)))
        by true = Spares-pure none
        by false = Spares-then _ _ embed_run (Spares-then _ _ (import_main _) (Spares-pure _))

    -- A sync leaves as many connections checked out as there were, whatever stage raises, where the
    -- stages themselves do.
    sync_main-Spares : (initial : Bool) → Spares out (sync_main initial)
    unfolding sync_main export_stage export_new_chunks
    sync_main-Spares initial =
        Spares-bind _ _
          (borrow-Spares st.get_conn st.put_conn out _ pool (
            Spares-bind _ _ (start_id-Spares initial) (λ last_id.
              Spares-bind _ _
                (Spares-bind _ _ (newer last_id)
                  (λ rows. Spares-then _ _ (write_chunks _) (Spares-pure _)))
                (λ r. Spares-pure _))))
          (λ e. later_stages-Spares initial e)
