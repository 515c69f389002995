-- ===== src/RagExport/State.antt =====
-- `load_state` and `save_state` of py-processor/rag_export.py, over files by their path. `json` is a
-- parameter.
pub mod Interrupted
use webspider.Prelude.{
  ℕ, Bool, List, [], ◌∷◌, ◌++◌, Option, none, some, Text, codes, text_eq, if◌then◌else◌,
}
use webspider.Outcome.{Outcome, ok, raise, attribute_error}

abbrev pub Files : Type 0
Files = Text → Option Text

unfoldable pub put_file : Text → Option Text → Files → Files
unfolding text_eq
put_file path content files p = if text_eq p path then content else files p

-- The calls that change files: `open(path, "w")` with what is written up to its closing, and
-- `os.replace(from, to)`.
pub data Op : Type 0 where
  write : Text → Text → Op
  replace : Text → Text → Op

unfoldable pub apply_op : Op → Files → Files
unfolding put_file
apply_op (write path content) files = put_file path (some content) files
apply_op (replace from to) files = put_file from none (put_file to (files from) files)

unfoldable pub run_ops : List Op → Files → Files
unfolding apply_op
run_ops [] files = files
run_ops (op ∷ ops) files = run_ops ops (apply_op op files)

-- `json.load(f)`: not JSON, a value without `get`, or an object with its "last_id".
pub data Loaded : Type 0 where
  no_json : Loaded
  no_object : Loaded
  object : Option ℕ → Loaded

pub record Json : Type 0 where
  pub dump : ℕ → Text
  pub load : Text → Loaded

abbrev last_id_of : Option ℕ → ℕ
last_id_of none = 0
last_id_of (some n) = n

unfoldable pub state_of : Loaded → Outcome ℕ
state_of no_json = ok 0
state_of no_object = raise attribute_error
state_of (object last_id) = ok (last_id_of last_id)

module _ (json : Json) where
  unfoldable pub read_state : Option Text → Outcome ℕ
  unfolding state_of
  read_state none = ok 0
  read_state (some s) = state_of (json.load s)

  unfoldable pub load_state : Text → Files → Outcome ℕ
  unfolding read_state
  load_state path files = read_state (files path)

  unfoldable pub tmp_of : Text → Text
  tmp_of path = path ++ codes ".tmp"

  unfoldable pub save_ops : Text → ℕ → List Op
  unfolding tmp_of
  save_ops path last_id = write (tmp_of path) (json.dump last_id) ∷ replace (tmp_of path) path ∷ []

  unfoldable pub save_state : Text → ℕ → Files → Files
  unfolding save_ops run_ops
  save_state path last_id files = run_ops (save_ops path last_id) files
