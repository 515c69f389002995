-- ===== src/SftExport/Run.antt =====
-- `export_sft` of py-processor/export_sft.py around its loop: the connection, the check of the format
-- and the cursor. The file is what is written.
use webspider.Prelude.{ℕ, Bool, ◌||◌, List, Text, codes, text_eq, if◌then◌else◌}
use webspider.Outcome.{raise, system_exit}
use webspider.Action.{Action, pure, lift, ◌>>=◌, ◌>>◌, finally}
use webspider.SftExport.{Post, Record, export_sft}

-- The pool, and the rows of the query, best score first.
pub record Source : Type 1 where
  pub World : Type 0
  pub get_conn : Action World (Unit {0})
  pub put_conn : Action World (Unit {0})
  pub posts : Action World (List Post)

-- `fmt not in ("alpaca", "sharegpt")`
unfoldable pub supported : Text → Bool
unfolding text_eq
supported fmt = text_eq fmt (codes "alpaca") || text_eq fmt (codes "sharegpt")

module _ (sr : Source) (lower : Text → Text) (min_quality min_answer_chars : ℕ) where
  -- The body of the `try`.
  unfoldable pub export_posts : Text → Action sr.World (List (Text × Record))
  unfolding export_sft text_eq
  export_posts fmt = do
    posts ← sr.posts
    pure (export_sft lower (text_eq fmt (codes "alpaca")) min_quality min_answer_chars posts)

  unfoldable pub checked : Text → Action sr.World (List (Text × Record))
  unfolding supported export_posts
  checked fmt =
      if supported fmt then finally (export_posts fmt) sr.put_conn else lift (raise system_exit)

  -- The connection is taken before the format is checked.
  unfoldable pub export_run : Text → Action sr.World (List (Text × Record))
  unfolding checked
  export_run fmt = do sr.get_conn; checked (lower fmt)
