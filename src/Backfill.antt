-- ===== src/Backfill.antt =====
-- py-processor/backfill_simhash.py: the fingerprints of the rows that have none. The printed line is
-- left out.
pub mod Filled
use webspider.Prelude.{ℕ, suc, List, [], ◌∷◌, Option, none, some, Text}
use webspider.Config.{Config}
use webspider.Dedupe.{Hashing, simhash}
use webspider.Action.{Action, pure, ◌>>=◌, ◌>>◌}
use webspider.Action.Borrowing.{borrow}

-- The pool, the rows without a `content_hash` with their text, and the UPDATE of one.
pub record Table : Type 1 where
  pub World : Type 0
  pub get_conn : Action World (Unit {0})
  pub put_conn : Action World (Unit {0})
  pub unhashed : Action World (List (ℕ × Option Text))
  pub update : ℕ → ℕ → Action World (Unit {0})
  pub commit : Action World (Unit {0})

-- `if not content: continue`
unfoldable pub text_of : Option Text → Option Text
text_of none = none
text_of (some []) = none
text_of (some (c ∷ s)) = some (c ∷ s)

module _ (tb : Table) (hs : Hashing) (cfg : Config) where
  -- One row; `rest` goes on with the others, from the number of rows that are done.
  unfoldable pub fill_row : ℕ → Option Text → (ℕ → Action tb.World ℕ) → ℕ → Action tb.World ℕ
  unfolding simhash
  fill_row aid none rest processed = rest processed
  fill_row aid (some content) rest processed = do
    tb.update aid (simhash hs content cfg.simhash_bits)
    rest (suc processed)

  unfoldable pub fill_rows : List (ℕ × Option Text) → ℕ → Action tb.World ℕ
  unfolding fill_row text_of
  fill_rows [] processed = pure processed
  fill_rows ((aid, content) ∷ rows) processed =
      fill_row aid (text_of content) (fill_rows rows) processed

  unfoldable pub fill_all : Action tb.World ℕ
  unfolding fill_rows
  fill_all = do rows ← tb.unhashed; processed ← fill_rows rows 0; tb.commit; pure processed

  -- `backfill`, to the number that it prints.
  unfoldable pub backfill : Action tb.World ℕ
  unfolding borrow fill_all
  backfill = borrow tb.get_conn tb.put_conn fill_all
