-- ===== src/Pipeline/Batch/Acks.antt =====
-- The acknowledgement of a batch, and what a failed INSERT leaves undone.
use mathlib.Core.Path.{subst}
use webspider.Prelude.{ℕ, ◌≡◌, refl, sym, List, [], ◌∷◌, ◌++◌, some, Text, All}
use webspider.Outcome.{Outcome, ok, raise, Error}
use webspider.Config.{Config}
use webspider.Dedupe.{Hashing}
use webspider.Services.{Services, Message, Row, Call}
use webspider.Services.Run.{State, Run, M, issue, ◌>>◌}
use webspider.Services.Emits.{Emits, Emits-pure, Emits-mono, Emits-bind, Emits-then, emits_rules}
use webspider.Services.Invert.{bind-Continued, bind-raise}
use webspider.Store.{insert_articles}
use webspider.Neardup.{index}
use webspider.Pipeline.{Libraries}
use webspider.Pipeline.Batch.{
  Gathered, gather, count_stored, index_rows, store_rows, count_rejected, settle, ack, msg_ids,
  process_batch,
}
use webspider.Pipeline.Batch.Writes.{IsPreparatory, gather-Emits}

-- Any call but XACK.
abbrev pub NotAck : Call → Type 0
NotAck (Call.xack ids) = ⊥
NotAck _ = Unit

preparatory-NotAck : (c : Call) → IsPreparatory c → NotAck c
preparatory-NotAck (Call.xack ids) h = h
preparatory-NotAck _ h = tt

module _ (sv : Services) where
  insert_articles-Emits : (rows : List Row) → Emits NotAck (insert_articles sv rows)
  unfolding insert_articles
  insert_articles-Emits [] = Emits-pure 0
  insert_articles-Emits (r ∷ rows) = search emits_rules depth 7

module _ (sv : Services) (hs : Hashing) (cfg : Config) (lib : Libraries) where
  index_rows-Emits : (rows : List Row) → Emits NotAck (index_rows sv hs cfg lib rows)
  unfolding index_rows index
  index_rows-Emits [] = Emits-pure tt
  index_rows-Emits (r ∷ rows) = let ih = index_rows-Emits rows in search emits_rules depth 7

  count_stored-Emits : (n : ℕ) (rows : List Row) → Emits NotAck (count_stored sv hs cfg lib n rows)
  unfolding count_stored
  count_stored-Emits n rows = search emits_rules depth 7

  store_rows-Emits : (rows : List Row) → Emits NotAck (store_rows sv hs cfg lib rows)
  unfolding store_rows
  store_rows-Emits [] = Emits-pure tt
  store_rows-Emits (r ∷ rows) =
      search (emits_rules, insert_articles-Emits sv, count_stored-Emits, index_rows-Emits) depth 7

  count_rejected-Emits : (g : Gathered) → Emits NotAck (count_rejected sv hs cfg lib g)
  unfolding count_rejected
  count_rejected-Emits g = search emits_rules

  settle-Emits : (messages : List Message) → Emits NotAck (settle sv hs cfg lib messages)
  unfolding settle
  settle-Emits messages =
      Emits-bind (gather sv hs cfg lib messages) _
        (Emits-mono (gather sv hs cfg lib messages) preparatory-NotAck
          (gather-Emits sv hs cfg lib messages))
        (λ g.
          Emits-then (store_rows sv hs cfg lib g.rows) (count_rejected sv hs cfg lib g)
            (store_rows-Emits g.rows) (count_rejected-Emits g))

  -- How a batch ends: with an exception and no XACK, or, after everything else has returned, with
  -- one XACK of the given ids as the last call.
  pub data AckedLast (ids : List Text) (before : Run sv (Unit {0})) (r : Run sv (Unit {0}))
      : Type 0 where
    unacked : (e : Error) → r.result ≡ raise e → All NotAck r.calls → AckedLast ids before r
    acked :
        before.result ≡ ok tt
        → All NotAck before.calls
        → r.calls ≡ before.calls ++ Call.xack ids ∷ []
        → AckedLast ids before r

  -- A batch acknowledges its messages only after everything else has succeeded: a run over a batch
  -- that is not empty either raises without any XACK, or its last call, and its only XACK, is that
  -- of the ids of all its messages, after the rest of the batch (`settle`) has returned.
  pub process_batch-AckedLast :
      (m : Message) (messages : List Message) (s : State sv)
      → AckedLast
          (msg_ids (m ∷ messages))
          (settle sv hs cfg lib (m ∷ messages) s)
          (process_batch sv hs cfg lib (some (m ∷ messages)) s)
  unfolding process_batch ◌>>◌ issue
  process_batch-AckedLast m messages s = ends (settle sv hs cfg lib (m ∷ messages) s).result refl
    where
      body : M sv (Unit {0})
      body = settle sv hs cfg lib (m ∷ messages)

      ids : List Text
      ids = msg_ids (m ∷ messages)

      quiet : All NotAck (body s).calls
      quiet = (settle-Emits (m ∷ messages)).at s

      ends :
          (o : Outcome (Unit {0}))
          → (body s).result ≡ o
          → AckedLast ids (body s) (process_batch sv hs cfg lib (some (m ∷ messages)) s)
      ends (raise e) h =
          let r = bind-raise body (λ _. ack sv hs cfg lib ids) s e h in
          unacked e r.result (subst (All NotAck) (sym r.calls) quiet)
      ends (ok tt) h = acked h quiet (bind-Continued body (λ _. ack sv hs cfg lib ids) s tt h).calls
