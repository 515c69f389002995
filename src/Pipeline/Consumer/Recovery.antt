-- ===== src/Pipeline/Consumer/Recovery.antt =====
-- The rounds of `recover_pending` in py-processor/main.py and the pending messages.
use webspider.Prelude.{
  ℕ, zero, suc, ◌<◌, ◌≤◌, ◌≡◌, refl, ap, ◌∙◌, arith, Bool, true, List, [], ◌∷◌, Option, some, Text,
  text_eq_refl, text_elem, length, take, if◌then◌else◌,
}
use webspider.Outcome.{Outcome, ok, raise, Error}
use webspider.Config.{Config}
use webspider.Dedupe.{Hashing}
use webspider.Services.{Services, Message, Call}
use webspider.Services.Run.{State, pure, issue, ◌>>◌}
use webspider.Services.Invert.{bind-elim}
use webspider.Services.Keeps.{Spares}
use webspider.Pipeline.{Libraries}
use webspider.Pipeline.Batch.{settle, ack, msg_ids, process_batch}
use webspider.Pipeline.Batch.Untouched.{Untouched, settle-Keeps}
use webspider.Pipeline.Consumer.{
  Next, drained, again, recover_batch, recover_pending_ids, recover_round, recover_next,
  recover_pending,
}

-- The ids that are still pending after an XACK of `ids`.
unfoldable pub remove : List Text → List Text → List Text
unfolding text_elem
remove ids [] = []
remove ids (p ∷ ps) = let rest = remove ids ps in if text_elem p ids then rest else p ∷ rest

length-remove : (ids ps : List Text) → length (remove ids ps) ≤ length ps
unfolding remove
length-remove ids [] = omega arith
length-remove ids (p ∷ ps) = let ih = length-remove ids ps in ground arith

length-remove_head :
    (p : Text) (ids ps : List Text) → length (remove (p ∷ ids) (p ∷ ps)) < length (p ∷ ps)
unfolding remove text_elem
length-remove_head p ids ps =
    let shorter = length-remove (p ∷ ids) ps in let same = text_eq_refl p in ground arith

-- What Redis documents of the pending entries of a consumer, oldest first: XPENDING lists them,
-- XREADGROUP from id 0 delivers them again, XACK removes the given ones, and nothing else that a
-- batch calls touches them.
pub record Pending (sv : Services) (pel : sv.World → List Text) : Type 0 where
  pub batch : Untouched sv pel
  pub xpending-Spares : (n : ℕ) → Spares pel (sv.xpending n)
  pub xpending :
      (n : ℕ) (w : sv.World) (ids : List Text) → (sv.xpending n w).0 ≡ ok ids → ids ≡ take n (pel w)
  pub xread-Spares : (n : ℕ) → Spares pel (sv.xread_pending n)
  pub xread :
      (n : ℕ) (w : sv.World) (response : Option (List Message))
      → (sv.xread_pending n w).0 ≡ ok response
      → (messages : List Message) × (response ≡ some messages) × (msg_ids messages ≡ take n (pel w))
  pub xack :
      (ids : List Text) (w : sv.World)
      → (sv.xack ids w).0 ≡ ok tt
      → pel (sv.xack ids w).1 ≡ remove ids (pel w)

module _ {sv : Services} {pel : sv.World → List Text} (laws : Pending sv pel) (hs : Hashing)
    (cfg : Config) (lib : Libraries) where
  open laws use {batch, xpending-Spares, xpending, xread-Spares, xread, xack}

  -- How a round ends: with an exception, or with nothing pending, or with fewer pending messages.
  data RoundEnd (before : List Text) (o : Outcome Next) (s : State sv) : Type 0 where
    failed : (e : Error) → o ≡ raise e → RoundEnd before o s
    finished : o ≡ ok drained → pel s.world ≡ [] → RoundEnd before o s
    shrank : o ≡ ok again → length (pel s.world) < length before → RoundEnd before o s

  acked :
      (id : Text) (ids : List Text) (before : List Text) (s : State sv)
      → pel s.world ≡ before
      → (ack sv hs cfg lib (id ∷ ids) s).result ≡ ok tt
      → pel (ack sv hs cfg lib (id ∷ ids) s).state.world ≡ remove (id ∷ ids) before
  unfolding ack issue
  acked id ids before s e h = xack (id ∷ ids) s.world h ∙ ap (remove (id ∷ ids)) e

  process_batch-remove :
      (messages : List Message) (before : List Text) (s : State sv) (p : Text) (ps : List Text)
      → pel s.world ≡ before
      → msg_ids messages ≡ p ∷ ps
      → (process_batch sv hs cfg lib (some messages) s).result ≡ ok tt
      → pel (process_batch sv hs cfg lib (some messages) s).state.world ≡ remove (p ∷ ps) before
  unfolding process_batch ◌>>◌
  process_batch-remove messages before s p ps e ids =
      bind-elim (settle sv hs cfg lib messages) (λ _. ack sv hs cfg lib (msg_ids messages)) s
        (λ o t. o ≡ ok tt → pel t.world ≡ remove (p ∷ ps) before)
        (λ a h. rw ids (
          acked p ps before (settle sv hs cfg lib messages s).state
            ((settle-Keeps batch hs cfg lib messages).at s ∙ e)))
        (λ x h bad. cc)

  -- A batch of the oldest pending messages, where there are some.
  recover_batch-RoundEnd :
      (n : ℕ) (p : Text) (ps : List Text) (messages : List Message) (s : State sv)
      → pel s.world ≡ p ∷ ps
      → msg_ids messages ≡ take (suc n) (p ∷ ps)
      → RoundEnd
          (p ∷ ps)
          (recover_batch sv hs cfg lib (some messages) s).result
          (recover_batch sv hs cfg lib (some messages) s).state
  unfolding recover_batch ◌>>◌ pure
  recover_batch-RoundEnd n p ps messages s e ids =
      bind-elim (process_batch sv hs cfg lib (some messages)) (λ _. pure again) s
        (RoundEnd (p ∷ ps))
        (λ a h. shrank refl (
          rw (process_batch-remove messages (p ∷ ps) s p (take n ps) e ids h)
            (length-remove_head p (take n ps) ps)))
        (λ x h. failed x refl)

  recover_response-RoundEnd :
      (n : ℕ) (p : Text) (ps : List Text) (response : Option (List Message)) (s : State sv)
      → pel s.world ≡ p ∷ ps
      → ((messages : List Message) × (response ≡ some messages)
          × (msg_ids messages ≡ take (suc n) (p ∷ ps)))
      → RoundEnd
          (p ∷ ps)
          (recover_batch sv hs cfg lib response s).result
          (recover_batch sv hs cfg lib response s).state
  recover_response-RoundEnd n p ps response s e (messages, given, ids) =
      rw given (recover_batch-RoundEnd n p ps messages s e ids)

  -- The read of the pending messages, and their batch.
  recover_pending_ids-RoundEnd :
      (n : ℕ) (ids before : List Text) (s : State sv)
      → cfg.batch_size ≡ suc n
      → pel s.world ≡ before
      → ids ≡ take (suc n) before
      → RoundEnd before
          (recover_pending_ids sv hs cfg lib ids s).result
          (recover_pending_ids sv hs cfg lib ids s).state
  unfolding recover_pending_ids pure issue
  recover_pending_ids-RoundEnd n [] [] s size e given = finished refl e
  recover_pending_ids-RoundEnd n [] (p ∷ ps) s size e given = cc
  recover_pending_ids-RoundEnd n (id ∷ ids) [] s size e given = cc
  recover_pending_ids-RoundEnd n (id ∷ ids) (p ∷ ps) s size e given =
      bind-elim (issue Call.xread (sv.xread_pending cfg.batch_size)) (recover_batch sv hs cfg lib) s
        (RoundEnd (p ∷ ps))
        (λ response h.
          let (messages, some_of, listed) = xread cfg.batch_size s.world response h in
          recover_response-RoundEnd n p ps response
            (issue Call.xread (sv.xread_pending cfg.batch_size) s).state
            ((xread-Spares cfg.batch_size).at s.world ∙ e)
            (messages, some_of, listed ∙ ap (λ k. take k (pel s.world)) size ∙ ap (take (suc n)) e))
        (λ x h. failed x refl)

  recover_round-RoundEnd :
      (n : ℕ) (s : State sv)
      → cfg.batch_size ≡ suc n
      → RoundEnd
          (pel s.world)
          (recover_round sv hs cfg lib s).result
          (recover_round sv hs cfg lib s).state
  unfolding recover_round issue
  recover_round-RoundEnd n s size =
      bind-elim (issue Call.xpending (sv.xpending cfg.batch_size))
        (recover_pending_ids sv hs cfg lib) s (RoundEnd (pel s.world))
        (λ ids h.
          recover_pending_ids-RoundEnd n ids (pel s.world)
            (issue Call.xpending (sv.xpending cfg.batch_size) s).state size
            ((xpending-Spares cfg.batch_size).at s.world)
            (xpending cfg.batch_size s.world ids h ∙ ap (λ k. take k (pel s.world)) size))
        (λ x h. failed x refl)

  -- How the loop ends: with an exception, or with nothing pending. It never runs out of rounds.
  pub data LoopEnd (o : Outcome Bool) (s : State sv) : Type 0 where
    stopped : (e : Error) → o ≡ raise e → LoopEnd o s
    emptied : o ≡ ok true → pel s.world ≡ [] → LoopEnd o s

  drain-LoopEnd :
      (n fuel : ℕ) (s : State sv)
      → cfg.batch_size ≡ suc n
      → length (pel s.world) < fuel
      → LoopEnd
          (recover_pending sv hs cfg lib fuel s).result
          (recover_pending sv hs cfg lib fuel s).state
  unfolding recover_pending recover_next pure
  drain-LoopEnd n zero s size h = let no : ⊥ = omega arith in elim no [ ]
  drain-LoopEnd n (suc fuel) s size h =
      let rest = drain-LoopEnd n fuel (recover_round sv hs cfg lib s).state size in
      bind-elim (recover_round sv hs cfg lib)
        (recover_next sv hs cfg lib (recover_pending sv hs cfg lib fuel)) s LoopEnd
        (λ next e. after next e (recover_round-RoundEnd n s size) rest) (λ x e. stopped x refl)
    where
      after :
          (next : Next)
          → (recover_round sv hs cfg lib s).result ≡ ok next
          → RoundEnd
              (pel s.world)
              (recover_round sv hs cfg lib s).result
              (recover_round sv hs cfg lib s).state
          → (length (pel (recover_round sv hs cfg lib s).state.world) < fuel
              → LoopEnd
                  (recover_pending sv hs cfg lib fuel (recover_round sv hs cfg lib s).state).result
                  (recover_pending sv hs cfg lib fuel (recover_round sv hs cfg lib s).state).state)
          → LoopEnd
              (recover_next sv hs cfg lib
                (recover_pending sv hs cfg lib fuel)
                next
                (recover_round sv hs cfg lib s).state).result
              (recover_next sv hs cfg lib
                (recover_pending sv hs cfg lib fuel)
                next
                (recover_round sv hs cfg lib s).state).state
      after next e (failed x bad) rest = cc
      after drained e (finished f nothing) rest = emptied refl nothing
      after drained e (shrank f less) rest = cc
      after again e (finished f nothing) rest = cc
      after again e (shrank f less) rest = rest (omega arith)

  -- `recover_pending` ends, whatever the batches do: with one round more than there are pending
  -- messages it has raised, or it has returned and nothing is pending any more. The batch size is
  -- not 0, and the services keep the laws of `Pending`.
  pub recover_pending-LoopEnd :
      (fuel : ℕ) (s : State sv)
      → 0 < cfg.batch_size
      → length (pel s.world) < fuel
      → LoopEnd
          (recover_pending sv hs cfg lib fuel s).result
          (recover_pending sv hs cfg lib fuel s).state
  recover_pending-LoopEnd fuel s size h = sized cfg.batch_size refl size
    where
      sized :
          (n : ℕ)
          → cfg.batch_size ≡ n
          → 0 < n
          → LoopEnd
              (recover_pending sv hs cfg lib fuel s).result
              (recover_pending sv hs cfg lib fuel s).state
      sized zero e pos = let no : ⊥ = omega arith in elim no [ ]
      sized (suc n) e pos = drain-LoopEnd n fuel s e h
