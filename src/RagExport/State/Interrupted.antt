-- ===== src/RagExport/State/Interrupted.antt =====
-- About a save that is interrupted.
use webspider.Prelude.{
  ℕ, ◌≡◌, ◌⊎◌, inl, inr, refl, ap, arith, false, List, ◌∷◌, ◌++◌, some, Text, codes, text_eq,
  text_eq_refl, eq_of_text_eq, length, length-append, Bool-cases,
}
use webspider.Outcome.{ok}
use webspider.RagExport.State.{
  Files, put_file, Op, write, apply_op, run_ops, Json, object, state_of, read_state, load_state,
  tmp_of, save_ops, save_state,
}

-- What a process that makes these calls may leave when it ends among them: it has ended before the
-- next call, or in a write, whose file then has any text, or later. `os.replace` is atomic.
pub data Interrupted : List Op → Files → Files → Type 0 where
  stopped : {ops : List Op} {files : Files} → Interrupted ops files files
  in_write :
      {ops : List Op} {files : Files} {path content : Text} (part : Text)
      → Interrupted (write path content ∷ ops) files (put_file path (some part) files)
  later :
      {ops : List Op} {files after : Files} {op : Op}
      → Interrupted ops (apply_op op files) after
      → Interrupted (op ∷ ops) files after

module _ (json : Json) where
  tmp-other : (path : Text) → text_eq path (tmp_of json path) ≡ false
  unfolding tmp_of
  tmp-other path = elim (Bool-cases (text_eq path (path ++ codes ".tmp"))) [
    | inl e ↦
        let same = ap length (eq_of_text_eq path (path ++ codes ".tmp") e) in
        absurd (omega (arith, same, length-append path (codes ".tmp")))
    | inr e ↦ e
  ]

  load_state-tmp :
      (path part : Text) (files : Files)
      → load_state json path (put_file (tmp_of json path) (some part) files)
        ≡ load_state json path files
  unfolding load_state put_file
  load_state-tmp path part files = rw (tmp-other path) refl

  load_state-save_state :
      (path : Text) (last_id : ℕ) (files : Files)
      → json.load (json.dump last_id) ≡ object (some last_id)
      → load_state json path (save_state json path last_id files) ≡ ok last_id
  unfolding load_state save_state save_ops run_ops apply_op put_file read_state state_of
  load_state-save_state path last_id files e =
      rw (tmp-other path, text_eq_refl path, text_eq_refl (tmp_of json path), e) refl

  -- However far a save has come when the process ends, the next run loads the id that was saved
  -- before or the new one, where what `json.dump` writes reads back.
  pub load_state-Interrupted :
      (path : Text) (last_id : ℕ) (files after : Files)
      → json.load (json.dump last_id) ≡ object (some last_id)
      → Interrupted (save_ops json path last_id) files after
      → (load_state json path after ≡ load_state json path files)
        ⊎ (load_state json path after ≡ ok last_id)
  unfolding save_ops apply_op
  load_state-Interrupted path last_id files _ e stopped = inl refl
  load_state-Interrupted path last_id files _ e (in_write part) =
      inl (load_state-tmp path part files)
  load_state-Interrupted path last_id files _ e (later stopped) =
      inl (load_state-tmp path (json.dump last_id) files)
  load_state-Interrupted path last_id files _ e (later (later stopped)) =
      inr (unfold save_state run_ops in load_state-save_state path last_id files e)
