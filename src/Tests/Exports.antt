-- ===== src/Tests/Exports.antt =====
-- The exports of the corpus at concrete rows.
use webspider.Prelude.{
  ℕ, suc, ◌-◌, ◌⊎◌, text_eq, if◌then◌else◌, ◌≡◌, refl, arith, true, false, List, [], ◌∷◌, ◌++◌,
  some, none, Text, codes, text_elem,
}
use webspider.Outcome.{ok, raise, system_exit}
use webspider.Action.Borrowing.{Pool}
use webspider.RagExport.State.{
  Loaded, no_json, object, Files, Json, load_state, put_file, tmp_of, save_ops,
}
use webspider.RagExport.State.Interrupted.{in_write, load_state-Interrupted}
use webspider.SftExport.Run.{Source, supported, export_run}
use webspider.SftExport.Leak.{export_run-out}
use webspider.RagExport.{ArticleRow, export_chunks}
use webspider.RagExport.Resumed.{query, export_chunks-resumed, above}
use webspider.SftExport.{Post, alpaca, parse_qa, export_sft}
use webspider.SftExport.Titles.{find_record, first_of, NoRepeat, export_sft-first}

abbrev load_char : Text → Loaded
load_char [] = no_json
load_char (c ∷ s) = object (some c)

abbrev article_row : ℕ → ArticleRow ℕ
article_row n = record {
  id = n;
  url = codes "u";
  content = some (codes "# A\nx\n## B\ny");
  fields = 0;
}

abbrev older : List (ArticleRow ℕ)
older = article_row 3 ∷ article_row 5 ∷ []

abbrev newer : List (ArticleRow ℕ)
newer = article_row 8 ∷ []

abbrev same_hash : Text → Text
same_hash url = url

-- The row with the id 3 was exported before.
saved_run : (export_chunks same_hash 10 0 1 false 3 (query older)).saved ≡ some 5
unfolding export_chunks above
saved_run = refl

export_chunks-resumed_example :
    ((export_chunks same_hash 10 0 1 false 3 (query older)).lines
        ++ (export_chunks same_hash 10 0 1 false 5 (query (older ++ newer))).lines
      ≡ (export_chunks same_hash 10 0 1 false 3 (query (older ++ newer))).lines)
    × ((export_chunks same_hash 10 0 1 false 5 (query (older ++ newer))).saved
        ≡ (export_chunks same_hash 10 0 1 false 3 (query (older ++ newer))).saved)
export_chunks-resumed_example =
    export_chunks-resumed same_hash 10 0 1 3 5 older newer saved_run (omega arith, tt)

abbrev composed : Text
composed = codes "# How to x?\n\nI want x.\n\n## Top answer\n\nDo y.\n"

parse_run : parse_qa composed 3 ≡ some (codes "How to x?", codes "I want x.", codes "Do y.")
unfolding parse_qa
parse_run = refl

short_run : parse_qa composed 6 ≡ none
unfolding parse_qa
short_run = refl

abbrev post : Text → Post
post url = record { url = url; content = composed; score = some 700; tags = none }

-- The same question twice, and a row below the quality asked for.
abbrev posts : List Post
posts = post (codes "u1") ∷ post (codes "u2") ∷ record (post (codes "u3")) { score = some 100 } ∷ []

first_run :
    export_sft (λ s. s) true 500 3 posts
    ≡ (
      codes "How to x?",
      alpaca (codes "How to x?") (codes "I want x.") (codes "Do y.") (codes "u1") [],
    )
      ∷ []
unfolding export_sft text_elem
first_run = refl

export_sft-first_example :
    ((k : Text)
      → find_record k (export_sft (λ s. s) true 500 3 posts) ≡ first_of (λ s. s) true 500 3 k posts)
    × NoRepeat (export_sft (λ s. s) true 500 3 posts)
export_sft-first_example = export_sft-first (λ s. s) true 500 3 posts

-- One connection is taken by the export, and none is out before it.
abbrev single : Source
single = record {
  World = ℕ;
  get_conn = λ w. (ok tt, suc w);
  put_conn = λ w. (ok tt, w - 1);
  posts = λ w. (ok [], w);
}

single-Pool : Pool single.get_conn single.put_conn (λ (w : ℕ). w)
single-Pool = record {
  given = λ w e. refl;
  refused = λ w x e. let no : ⊥ = cc in elim no [ ];
  returned = λ w n e. omega (arith, e);
}

export_run-out_example :
    ((supported (codes "csv") ≡ true) × ((export_run single (λ s. s) 0 100 (codes "csv") 0).1 ≡ 0))
    ⊎ ((supported (codes "csv") ≡ false)
        × ((export_run single (λ s. s) 0 100 (codes "csv") 0).0 ≡ raise system_exit)
        × ((export_run single (λ s. s) 0 100 (codes "csv") 0).1 ≡ 1))
export_run-out_example =
    export_run-out single (λ s. s) 0 100 (λ w. w) single-Pool (record { at = λ w. refl })
      (codes "csv") 0 refl

-- The id as one character.
abbrev one_char : Json
one_char = record { dump = λ n. n ∷ []; load = load_char }

abbrev state_files : Files
state_files p = if text_eq p (codes "s") then some (3 ∷ []) else none

-- The process ends while it writes the file beside.
load_state-Interrupted_example :
    (load_state one_char (codes "s") (put_file (tmp_of one_char (codes "s")) (some []) state_files)
      ≡ load_state one_char (codes "s") state_files)
    ⊎ (load_state one_char
          (codes "s")
          (put_file (tmp_of one_char (codes "s")) (some []) state_files)
        ≡ ok 5)
load_state-Interrupted_example =
    load_state-Interrupted one_char (codes "s") 5 state_files _ refl
      (unfold save_ops in in_write [])
