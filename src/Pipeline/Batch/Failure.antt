-- ===== src/Pipeline/Batch/Failure.antt =====
-- A batch whose INSERT raises: no fingerprint is indexed, no metric is counted, nothing is
-- acknowledged.
use mathlib.Core.Path.{subst}
use webspider.Prelude.{◌≡◌, sym, ap, ◌∙◌, some, List, [], ◌∷◌, ◌++◌, All, All-append}
use webspider.Outcome.{raise, ok, Error}
use webspider.Config.{Config}
use webspider.Dedupe.{Hashing}
use webspider.Services.{Services, Message, Row, Call}
use webspider.Services.Run.{State, ◌>>◌}
use webspider.Services.Emits.{Emits, Emits-pure, Emits-mono, emits_rules}
use webspider.Services.Invert.{bind-Continued, bind-raise}
use webspider.Store.{insert_articles}
use webspider.Pipeline.{Libraries}
use webspider.Pipeline.Batch.{
  Gathered, gather, count_stored, index_rows, store_rows, count_rejected, settle, ack, msg_ids,
  process_batch,
}
use webspider.Pipeline.Batch.Writes.{IsPreparatory, gather-Emits}

-- Neither a command queue (fingerprints and counters of the batch) nor an acknowledgement.
abbrev pub NotFinal : Call → Type 0
NotFinal (Call.execute cs) = ⊥
NotFinal (Call.xack ids) = ⊥
NotFinal _ = Unit

preparatory-NotFinal : (c : Call) → IsPreparatory c → NotFinal c
preparatory-NotFinal (Call.execute cs) h = h
preparatory-NotFinal (Call.xack ids) h = h
preparatory-NotFinal _ h = tt

module _ (sv : Services) where
  insert_articles-NotFinal : (rows : List Row) → Emits NotFinal (insert_articles sv rows)
  unfolding insert_articles
  insert_articles-NotFinal [] = Emits-pure 0
  insert_articles-NotFinal (r ∷ rows) = search emits_rules depth 7

module _ (sv : Services) (hs : Hashing) (cfg : Config) (lib : Libraries) where
  -- If phases 1 to 3 gather rows and their INSERT raises, the batch raises the same exception and
  -- its calls are those of the phases and of the INSERT: no fingerprint is indexed before a row is
  -- written, no counter of the batch moves, and no message is acknowledged.
  pub process_batch-insert_raises :
      (b : List Message) (s : State sv) (g : Gathered) (row : Row) (rows : List Row) (e : Error)
      → (gather sv hs cfg lib b s).result ≡ ok g
      → g.rows ≡ row ∷ rows
      → (insert_articles sv (row ∷ rows) (gather sv hs cfg lib b s).state).result ≡ raise e
      → ((process_batch sv hs cfg lib (some b) s).result ≡ raise e)
        × ((process_batch sv hs cfg lib (some b) s).calls
            ≡ (gather sv hs cfg lib b s).calls
              ++ (insert_articles sv (row ∷ rows) (gather sv hs cfg lib b s).state).calls)
        × All NotFinal (process_batch sv hs cfg lib (some b) s).calls
  unfolding process_batch settle store_rows ◌>>◌
  process_batch-insert_raises b s g row rows e r shape fails =
      let t = (gather sv hs cfg lib b s).state in
      let all = row ∷ rows in
      let k =
        bind-Continued (gather sv hs cfg lib b)
          (λ g. store_rows sv hs cfg lib g.rows >> count_rejected sv hs cfg lib g) s g r in
      let x =
        bind-raise (insert_articles sv all)
          (λ n. count_stored sv hs cfg lib n all >> index_rows sv hs cfg lib all) t e fails in
      let y =
        bind-raise (store_rows sv hs cfg lib all) (λ _. count_rejected sv hs cfg lib g) t e
          x.result in
      let raised : ((store_rows sv hs cfg lib g.rows >> count_rejected sv hs cfg lib g) t).result
          ≡ raise e =
        rw shape y.result in
      let issued : ((store_rows sv hs cfg lib g.rows >> count_rejected sv hs cfg lib g) t).calls
          ≡ (insert_articles sv all t).calls =
        rw shape (y.calls ∙ x.calls) in
      let z =
        bind-raise (settle sv hs cfg lib b) (λ _. ack sv hs cfg lib (msg_ids b)) s e
          (k.result ∙ raised) in
      let calls = z.calls ∙ k.calls ∙ ap (◌++◌ (gather sv hs cfg lib b s).calls) issued in
      (
        z.result,
        calls,
        subst (All NotFinal) (sym calls) (
            All-append NotFinal (gather sv hs cfg lib b s).calls (insert_articles sv all t).calls
              ((Emits-mono (gather sv hs cfg lib b) preparatory-NotFinal
                  (gather-Emits sv hs cfg lib b)).at
                s)
              ((insert_articles-NotFinal sv all).at t)),
      )
