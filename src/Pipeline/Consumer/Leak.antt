-- ===== src/Pipeline/Consumer/Leak.antt =====
-- The connections that the reconnection loop of `main` in py-processor/main.py takes from the pool.
use webspider.Prelude.{
  ℕ, zero, suc, ◌+◌, ◌<◌, ◌≤◌, min, ◌≡◌, refl, sym, ap, ◌∙◌, arith, Bool, true, false, List, [],
  ◌∷◌, Option, some, none, Text, dec_lt,
}
use webspider.Outcome.{Outcome, ok, raise, Error}
use webspider.Config.{Config}
use webspider.Dedupe.{Hashing}
use webspider.Services.{Services, Message, Call}
use webspider.Services.Run.{State, Run, M, pure, issue, catch, ◌>>◌}
use webspider.Services.Invert.{bind-elim, catch-state, catch-raise}
use webspider.Services.Keeps.{
  Keeps, Spares, Keeps-pure, Keeps-bind, Keeps-then, Keeps-issue, keeps_rules,
}
use webspider.Pipeline.{Libraries}
use webspider.Pipeline.Batch.{ack, msg_ids, process_batch}
use webspider.Pipeline.Batch.Untouched.{Untouched, settle-Keeps}
use webspider.Pipeline.Consumer.{
  Next, drained, again, recover_batch, recover_pending_ids, recover_round, recover_next,
  recover_pending, reconnect_round, reconnect, retry_or,
}

-- A pool of at most `limit` connections, of which `out` are checked out: it hands one out if and
-- only if there is one left. No other call that the loop makes takes one or gives one back.
pub record Pool (sv : Services) (limit : ℕ) (out : sv.World → ℕ) : Type 0 where
  pub given : (w : sv.World) → (sv.get_conn w).0 ≡ ok tt → out (sv.get_conn w).1 ≡ suc (out w)
  pub left : (w : sv.World) → (sv.get_conn w).0 ≡ ok tt → out w < limit
  pub refused :
      (w : sv.World) (e : Error) → (sv.get_conn w).0 ≡ raise e → out (sv.get_conn w).1 ≡ out w
  pub batch : Untouched sv out
  pub xpending : (n : ℕ) → Spares out (sv.xpending n)
  pub xread : (n : ℕ) → Spares out (sv.xread_pending n)
  pub xack : (ids : List Text) → Spares out (sv.xack ids)

module _ {sv : Services} {limit : ℕ} {out : sv.World → ℕ} (pool : Pool sv limit out) (hs : Hashing)
    (cfg : Config) (lib : Libraries) where
  open pool use {given, left, refused, batch, xpending, xread, xack}

  ack-Keeps : (ids : List Text) → Keeps out (ack sv hs cfg lib ids)
  unfolding ack
  ack-Keeps [] = Keeps-pure tt
  ack-Keeps (id ∷ ids) = search (keeps_rules, xack)

  process_batch-Keeps : (o : Option (List Message)) → Keeps out (process_batch sv hs cfg lib o)
  unfolding process_batch
  process_batch-Keeps none = Keeps-pure tt
  process_batch-Keeps (some messages) =
      Keeps-then _ _ (settle-Keeps batch hs cfg lib messages) (ack-Keeps (msg_ids messages))

  recover_batch-Keeps : (o : Option (List Message)) → Keeps out (recover_batch sv hs cfg lib o)
  unfolding recover_batch
  recover_batch-Keeps none = Keeps-pure drained
  recover_batch-Keeps (some messages) =
      Keeps-then _ _ (process_batch-Keeps (some messages)) (Keeps-pure again)

  recover_pending_ids-Keeps : (ids : List Text) → Keeps out (recover_pending_ids sv hs cfg lib ids)
  unfolding recover_pending_ids
  recover_pending_ids-Keeps [] = Keeps-pure drained
  recover_pending_ids-Keeps (id ∷ ids) =
      Keeps-bind _ _
        (Keeps-issue Call.xread (sv.xread_pending cfg.batch_size) (xread cfg.batch_size))
        recover_batch-Keeps

  recover_round-Keeps : Keeps out (recover_round sv hs cfg lib)
  unfolding recover_round
  recover_round-Keeps =
      Keeps-bind _ _
        (Keeps-issue Call.xpending (sv.xpending cfg.batch_size) (xpending cfg.batch_size))
        recover_pending_ids-Keeps

  recover_next-Keeps :
      (rest : M sv Bool)
      → Keeps out rest
      → (next : Next) → Keeps out (recover_next sv hs cfg lib rest next)
  unfolding recover_next
  recover_next-Keeps rest h drained = Keeps-pure true
  recover_next-Keeps rest h again = h

  recover_pending-Keeps : (fuel : ℕ) → Keeps out (recover_pending sv hs cfg lib fuel)
  unfolding recover_pending
  recover_pending-Keeps zero = Keeps-pure false
  recover_pending-Keeps (suc fuel) =
      let ih = recover_pending-Keeps fuel in
      Keeps-bind _ _ recover_round-Keeps
        (recover_next-Keeps (recover_pending sv hs cfg lib fuel) ih)

  -- What a round does to the number of connections that are out, by what the pool answers.
  data RoundCost (answer : Outcome (Unit {0})) (before after : ℕ) (o : Outcome Bool) : Type 0 where
    took : answer ≡ ok tt → after ≡ suc before → before < limit → RoundCost answer before after o
    none_left :
        (e : Error)
        → answer ≡ raise e
        → after ≡ before
        → o ≡ raise e
        → RoundCost answer before after o

  reconnect_round-RoundCost :
      (fuel : ℕ) (s : State sv)
      → RoundCost
          (sv.get_conn s.world).0
          (out s.world)
          (out (reconnect_round sv hs cfg lib fuel s).state.world)
          (reconnect_round sv hs cfg lib fuel s).result
  unfolding reconnect_round issue ◌>>◌
  reconnect_round-RoundCost fuel s =
      bind-elim (issue Call.get_conn sv.get_conn) (λ _. recover_pending sv hs cfg lib fuel) s
        (λ o t. RoundCost (sv.get_conn s.world).0 (out s.world) (out t.world) o)
        (λ a h.
          took h
            ((recover_pending-Keeps fuel).at (issue Call.get_conn sv.get_conn s).state
              ∙ given s.world h)
            (left s.world h))
        (λ e h. none_left e h (refused s.world e h) refl)

  -- A caught round: it takes a connection, or it fails and takes none.
  data Caught (answer : Outcome (Unit {0})) (before : ℕ) (o : Outcome Bool) (after : ℕ)
      : Type 0 where
    spent : before < limit → after ≡ suc before → Caught answer before o after
    vain :
        (e : Error)
        → answer ≡ raise e
        → o ≡ ok false
        → after ≡ before
        → Caught answer before o after

  catch-Caught :
      (fuel : ℕ) (s : State sv)
      → Caught
          (sv.get_conn s.world).0
          (out s.world)
          (catch (reconnect_round sv hs cfg lib fuel) false s).result
          (out (catch (reconnect_round sv hs cfg lib fuel) false s).state.world)
  catch-Caught fuel s = by_cost (reconnect_round-RoundCost fuel s)
    where
      round : M sv Bool
      round = reconnect_round sv hs cfg lib fuel

      same_world : out (catch round false s).state.world ≡ out (round s).state.world
      same_world = ap (λ (t : State sv). out t.world) (catch-state round false s)

      by_cost :
          RoundCost
            (sv.get_conn s.world).0
            (out s.world)
            (out (round s).state.world)
            (round s).result
          → Caught
              (sv.get_conn s.world).0
              (out s.world)
              (catch round false s).result
              (out (catch round false s).state.world)
      by_cost (took h up less) = spent less (same_world ∙ up)
      by_cost (none_left e h same bad) =
          vain e h (catch-raise round false s e bad) (same_world ∙ same)

  -- From an exhausted pool no number of reconnection rounds succeeds, whether or not what made the
  -- earlier ones fail still lasts, where the pool keeps the laws of `Pool`.
  pub reconnect-exhausted :
      (fuel rounds : ℕ) (s : State sv)
      → limit ≤ out s.world
      → (reconnect sv hs cfg lib fuel rounds s).result ≡ ok false
  unfolding reconnect retry_or pure
  reconnect-exhausted fuel zero s full = refl
  reconnect-exhausted fuel (suc rounds) s full =
      let rest =
        reconnect-exhausted fuel rounds
          (catch (reconnect_round sv hs cfg lib fuel) false s).state in
      bind-elim (catch (reconnect_round sv hs cfg lib fuel) false)
        (retry_or sv hs cfg lib (reconnect sv hs cfg lib fuel rounds)) s (λ o t. o ≡ ok false)
        (λ a e. after a e (catch-Caught fuel s) rest)
        (λ x e. sym e ∙ failing x e (catch-Caught fuel s))
    where
      ended : Run sv Bool
      ended = catch (reconnect_round sv hs cfg lib fuel) false s

      after :
          (a : Bool)
          → ended.result ≡ ok a
          → Caught (sv.get_conn s.world).0 (out s.world) ended.result (out ended.state.world)
          → (limit ≤ out ended.state.world
              → (reconnect sv hs cfg lib fuel rounds ended.state).result ≡ ok false)
          → (retry_or sv hs cfg lib (reconnect sv hs cfg lib fuel rounds) a ended.state).result
            ≡ ok false
      after a e (spent less up) rest = let no : ⊥ = omega arith in elim no [ ]
      after true e (vain x' refused_by f same) rest = cc
      after false e (vain x' refused_by f same) rest = rest (omega arith)

      failing :
          (x : Error)
          → ended.result ≡ raise x
          → Caught (sv.get_conn s.world).0 (out s.world) ended.result (out ended.state.world)
          → ended.result ≡ ok false
      failing x e (spent less up) = let no : ⊥ = omega arith in elim no [ ]
      failing x e (vain x' refused_by f same) = cc

  -- Reconnection rounds that all fail leave one more connection checked out each, until the pool is
  -- exhausted: the pool keeps the laws of `Pool` and hands out a connection while one is left, and no
  -- more than its limit are out at the start.
  pub reconnect-min :
      (fuel rounds : ℕ) (s : State sv)
      → ((w : sv.World) → out w < limit → (sv.get_conn w).0 ≡ ok tt)
      → out s.world ≤ limit
      → (reconnect sv hs cfg lib fuel rounds s).result ≡ ok false
      → out (reconnect sv hs cfg lib fuel rounds s).state.world ≡ min limit (out s.world + rounds)
  unfolding reconnect retry_or pure
  reconnect-min fuel zero s up within = λ bad. omega arith
  reconnect-min fuel (suc rounds) s up within =
      let rest =
        reconnect-min fuel rounds (catch (reconnect_round sv hs cfg lib fuel) false s).state up in
      bind-elim (catch (reconnect_round sv hs cfg lib fuel) false)
        (retry_or sv hs cfg lib (reconnect sv hs cfg lib fuel rounds)) s
        (λ o t. o ≡ ok false → out t.world ≡ min limit (out s.world + suc rounds))
        (λ a e. after a e (catch-Caught fuel s) rest) (λ x e bad. cc)
    where
      ended : Run sv Bool
      ended = catch (reconnect_round sv hs cfg lib fuel) false s

      next : Run sv Bool
      next = reconnect sv hs cfg lib fuel rounds ended.state

      after :
          (a : Bool)
          → ended.result ≡ ok a
          → Caught (sv.get_conn s.world).0 (out s.world) ended.result (out ended.state.world)
          → (out ended.state.world ≤ limit
              → next.result ≡ ok false
              → out next.state.world ≡ min limit (out ended.state.world + rounds))
          → (retry_or sv hs cfg lib (reconnect sv hs cfg lib fuel rounds) a ended.state).result
            ≡ ok false
          → out
              (retry_or sv hs cfg lib
                (reconnect sv hs cfg lib fuel rounds)
                a
                ended.state).state.world
            ≡ min limit (out s.world + suc rounds)
      after true e c rest bad = cc
      after false e (spent less more) rest bad = let taken = rest (omega arith) bad in omega arith
      after false e (vain x refused_by f same) rest bad =
          let full : limit ≤ out s.world = exhausted x refused_by (dec_lt (out s.world) limit) in
          let taken = rest (omega arith) bad in omega arith
        where
          exhausted :
              (x : Error)
              → (sv.get_conn s.world).0 ≡ raise x
              → Dec (out s.world < limit)
              → limit ≤ out s.world
          exhausted x h (yes less) = let answered = up s.world less in cc
          exhausted x h (no full) = omega arith
