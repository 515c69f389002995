-- ===== src/Replay.antt =====
-- py-processor/dlq_replay.py: `replay_round`, which puts parked messages back on the main stream.
pub mod Rounds
pub mod Loop
use webspider.Prelude.{
  ℕ, suc, Bool, true, false, List, [], ◌∷◌, Option, none, some, Text, codes, if◌then◌else◌,
}
use webspider.Outcome.{Outcome, ok, raise, attribute_error}
use webspider.Config.{Config}
use webspider.Services.{Services, Call}
use webspider.Services.Run.{M, pure, lift, issue, ◌>>=◌, ◌>>◌}
use webspider.Pipeline.{Json, object, other, Libraries}
use webspider.Pipeline.DeadLetter.{get_or}
use webspider.Pipeline.Batch.{lookup}

-- An entry of the dead-letter stream: its id and its fields.
abbrev pub Entry : Type 0
Entry = Text × List (Text × Text)

-- `fields.get("article")`, with an empty one as none.
unfoldable pub article_of : List (Text × Text) → Option Text
unfolding lookup
article_of fields = elim (lookup (codes "article") fields) [
  | none ↦ none
  | some raw ↦ elim raw [ [] ↦ none | c ∷ s ↦ some (c ∷ s) ]
]

-- `info.get("url", "?")`; what is not JSON is read as an empty object.
unfoldable pub info_url : Option Json → Outcome Text
unfolding get_or
info_url none = ok (codes "?")
info_url (some other) = raise attribute_error
info_url (some (object article)) = ok (get_or (codes "?") article.url)

-- `fields.get("url") or info.get("url", "?")`
unfoldable pub entry_url : Libraries → List (Text × Text) → Text → Outcome Text
unfolding info_url lookup
entry_url lib fields article = elim (lookup (codes "url") fields) [
  | none ↦ info_url (lib.loads article)
  | some url ↦ elim url [ [] ↦ info_url (lib.loads article) | c ∷ s ↦ ok (c ∷ s) ]
]

module _ (sv : Services) (cfg : Config) (lib : Libraries) where
  -- `r.xadd(STREAM, {"article": article})`
  unfoldable pub add_again : Text → M sv (Unit {0})
  add_again article =
      let fields = (codes "article", article) ∷ [] in
      issue (Call.xadd cfg.stream fields) (sv.xadd cfg.stream fields)

  unfoldable pub drop_entry : Bool → Text → M sv (Unit {0})
  drop_entry false msg_id = pure tt
  drop_entry true msg_id = issue (Call.xdel cfg.dlq_stream msg_id) (sv.xdel cfg.dlq_stream msg_id)

  -- One entry that has an article; `rest` goes on with the others.
  unfoldable pub replay_entry : Bool → Bool → Text → Text → M sv (ℕ × ℕ) → M sv (ℕ × ℕ)
  unfolding add_again drop_entry
  replay_entry delete true msg_id article rest = rest
  replay_entry delete false msg_id article rest = do
    add_again article
    drop_entry delete msg_id
    (replayed, skipped) ← rest
    pure (suc replayed, skipped)

  unfoldable pub skip_entry : M sv (ℕ × ℕ) → M sv (ℕ × ℕ)
  skip_entry rest = do (replayed, skipped) ← rest; pure (replayed, suc skipped)

  unfoldable pub with_article :
      Bool → Bool → Text → List (Text × Text) → M sv (ℕ × ℕ) → Option Text → M sv (ℕ × ℕ)
  unfolding replay_entry skip_entry entry_url
  with_article delete dry_run msg_id fields rest none = skip_entry rest
  with_article delete dry_run msg_id fields rest (some article) = do
    url ← lift (entry_url lib fields article)
    replay_entry delete dry_run msg_id article rest

  -- The loop over the entries: what it adds to `replayed` and `skipped`.
  unfoldable pub replay_entries : Bool → Bool → List Entry → M sv (ℕ × ℕ)
  unfolding with_article article_of
  replay_entries delete dry_run [] = pure (0, 0)
  replay_entries delete dry_run ((msg_id, fields) ∷ entries) =
      with_article delete dry_run msg_id fields (replay_entries delete dry_run entries)
        (article_of fields)

  -- A limit of 0 is none.
  unfoldable pub replay_round : ℕ → Bool → Bool → M sv (ℕ × ℕ)
  unfolding replay_entries
  replay_round limit delete dry_run = do
    entries ← issue (Call.xrange cfg.dlq_stream limit) (sv.xrange cfg.dlq_stream limit)
    replay_entries delete dry_run entries
