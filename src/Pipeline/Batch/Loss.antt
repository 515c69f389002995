-- ===== src/Pipeline/Batch/Loss.antt =====
-- A message whose INSERT failed is acknowledged by the next run, and is never stored.
use mathlib.Core.Bool.{false≢true}
use mathlib.Core.Path.{subst}
use webspider.Prelude.{
  ℕ, ◌≡◌, ◌≢◌, inl, inr, sym, ap, ◌∙◌, List, [], ◌∷◌, ◌++◌, Option, some, Text, All, All-append,
  elem,
}
use webspider.Outcome.{ok}
use webspider.Config.{Config}
use webspider.Dedupe.{Hashing, simhash}
use webspider.Services.{Services, Call}
use webspider.Services.Run.{State, issue, ◌>>◌}
use webspider.Services.Emits.{Emits, Emits-mono, emits_rules}
use webspider.Services.Invert.{bind-eq-ok}
use webspider.Pipeline.{Article, object, Libraries}
use webspider.Pipeline.Batch.{
  Gathered, nothing, decode, inline_content, gather, store_rows, count_rejected, settle, ack,
  process_batch,
}
use webspider.Pipeline.Batch.Writes.{IsPreparatory, gather-Emits}
use webspider.Pipeline.Batch.Retry.{Remembers, gather-seen, process_batch-seen}

-- Any call but an INSERT.
abbrev pub NotInsert : Call → Type 0
NotInsert (Call.insert rows) = ⊥
NotInsert _ = Unit

preparatory-NotInsert : (c : Call) → IsPreparatory c → NotInsert c
preparatory-NotInsert (Call.insert rows) h = h
preparatory-NotInsert _ h = tt

-- A fingerprint that a first pass left in the deque keeps a second one from adding a row.
no_second_row :
    (h : ℕ) (before after before' after' : List ℕ) (g g' : Gathered)
    → Remembers h before after nothing g
    → g.rows ≢ []
    → before' ≡ after
    → Remembers h before' after' nothing g'
    → g'.rows ≡ []
no_second_row h b x b' x' g g' (inl none_added) ne e r = absurd (ne none_added)
no_second_row h b x b' x' g g' (inr y) ne e (inl none_added) = none_added
no_second_row h b x b' x' g g' (inr (_, held)) ne e (inr (absent, _)) =
    absurd (false≢true (sym absent ∙ ap (elem h) e ∙ held))

module _ (sv : Services) (hs : Hashing) (cfg : Config) (lib : Libraries) where
  rest-Emits :
      (g : Gathered)
      → g.rows ≡ []
      → Emits NotInsert (store_rows sv hs cfg lib g.rows >> count_rejected sv hs cfg lib g)
  unfolding store_rows count_rejected
  rest-Emits g e = rw e (search emits_rules depth 7)

  -- A message whose article brings its text along is run in a batch of its own. If that run
  -- gathers a row for it, then whatever becomes of the INSERT, failure included, a second run over
  -- the same message with the deque that the first one left, in any world, issues no INSERT if it
  -- returns, and its last call acknowledges the message.
  pub process_batch-lost :
      (id : Text) (raw : Option Text) (a : Article) (content : Text) (s s' : State sv)
      (g : Gathered)
      → decode lib raw ≡ some (object a)
      → inline_content a ≡ some content
      → (gather sv hs cfg lib ((id, raw) ∷ []) s).result ≡ ok g
      → g.rows ≢ []
      → s'.seen ≡ (process_batch sv hs cfg lib (some ((id, raw) ∷ [])) s).state.seen
      → (process_batch sv hs cfg lib (some ((id, raw) ∷ [])) s').result ≡ ok tt
      → All NotInsert (process_batch sv hs cfg lib (some ((id, raw) ∷ [])) s').calls
        × ((process_batch sv hs cfg lib (some ((id, raw) ∷ [])) s').calls
            ≡ (settle sv hs cfg lib ((id, raw) ∷ []) s').calls ++ Call.xack (id ∷ []) ∷ [])
  unfolding process_batch settle ◌>>◌ issue
  process_batch-lost id raw a content s s' g decoded inline r some_rows same r' =
      let batch = (id, raw) ∷ [] in
      let (_, k) =
        bind-eq-ok (settle sv hs cfg lib batch) (λ _. ack sv hs cfg lib (id ∷ [])) s' r' in
      let (g', k') = bind-eq-ok (gather sv hs cfg lib batch) _ s' k.first in
      let none_added =
        no_second_row (simhash hs content cfg.simhash_bits) s.seen _ s'.seen _ g g'
          (gather-seen sv hs cfg lib id raw a content g s decoded inline r) some_rows
          (same ∙ process_batch-seen sv hs cfg lib batch s)
          (gather-seen sv hs cfg lib id raw a content g' s' decoded inline k'.first) in
      let quiet =
        All-append NotInsert (gather sv hs cfg lib batch s').calls _
          ((Emits-mono (gather sv hs cfg lib batch) preparatory-NotInsert
              (gather-Emits sv hs cfg lib batch)).at
            s')
          ((rest-Emits g' none_added).at (gather sv hs cfg lib batch s').state) in
      (
        subst (All NotInsert) (sym k.calls) (
            All-append NotInsert (settle sv hs cfg lib batch s').calls _
              (subst (All NotInsert) (sym k'.calls) quiet) (tt, tt)),
        k.calls,
      )
