-- ===== src/Pipeline/DeadLetter/Once.antt =====
-- What a second `push_dlq` of the same message does.
use mathlib.Core.Path.{subst}
use webspider.Prelude.{
  ℕ, ◌≡◌, ◌⊎◌, inl, inr, refl, sym, ap, ◌∙◌, Bool, true, false, List, Text, codes, ◌==◌,
  if◌then◌else◌, Bool-cases,
}
use webspider.Outcome.{Outcome, ok, raise}
use webspider.Config.{Config}
use webspider.Services.{Services, Call}
use webspider.Services.Run.{State, M, pure, issue, ◌>>=◌, ◌>>◌}
use webspider.Services.Invert.{
  bind-Continued, bind-raise, catch-state, catch-ok, catch-raise, then-pure_state,
}
use webspider.Pipeline.{Article, Libraries}
use webspider.Pipeline.DeadLetter.{dlq_fields, dlq_script, count_parked, park, push_dlq}

-- What `push_dlq` relies on of Redis: a script that answers has run, one that does not has run or
-- has not, SADD adds a member, and SADD, XADD and INCR remove none.
pub record ScriptLaws (sv : Services) : Type 0 where
  pub eval_runs :
      (f : sv.World → ℕ × sv.World) (w : sv.World) (n : ℕ)
      → (sv.eval f w).0 ≡ ok n
      → f w ≡ (n, (sv.eval f w).1)
  pub eval_world :
      (f : sv.World → ℕ × sv.World) (w : sv.World)
      → ((sv.eval f w).1 ≡ w) ⊎ ((sv.eval f w).1 ≡ (f w).1)
  pub sadd_keeps :
      (k u v : Text) (w : sv.World)
      → sv.sismember k u w ≡ true
      → sv.sismember k u (sv.script_sadd k v w) ≡ true
  pub sadd_adds : (k v : Text) (w : sv.World) → sv.sismember k v (sv.script_sadd k v w) ≡ true
  pub xadd_keeps :
      (k v stream : Text) (n : ℕ) (fields : List (Text × Text)) (w : sv.World)
      → sv.sismember k v (sv.script_xadd stream n fields w) ≡ sv.sismember k v w
  pub incr_keeps :
      (k v counter : Text) (n : ℕ) (w : sv.World)
      → sv.sismember k v (sv.incr counter n w).1 ≡ sv.sismember k v w

module _ {sv : Services} (laws : ScriptLaws sv) (cfg : Config) (lib : Libraries) where
  open laws use {eval_runs, eval_world, sadd_keeps, sadd_adds, xadd_keeps, incr_keeps}

  abbrev IsParked : Text → sv.World → Type 0
  IsParked id w = sv.sismember cfg.dlq_seen_key id w ≡ true

  -- The script leaves the id among those that were parked.
  dlq_script-IsParked :
      (id : Text) (fields : List (Text × Text)) (w : sv.World)
      → IsParked id (dlq_script sv cfg id fields w).1
  unfolding dlq_script
  dlq_script-IsParked id fields w = elim (Bool-cases (sv.sismember cfg.dlq_seen_key id w)) [
    | inl old ↦ rw old old
    | inr new ↦ rw new (xadd_keeps _ _ _ _ _ _ ∙ sadd_adds _ _ _)
  ]

  eval-IsParked :
      (id : Text) (fields : List (Text × Text)) (w : sv.World) (n : ℕ)
      → (sv.eval (dlq_script sv cfg id fields) w).0 ≡ ok n
      → IsParked id (sv.eval (dlq_script sv cfg id fields) w).1
  eval-IsParked id fields w n e =
      subst (λ (p : ℕ × sv.World). IsParked id p.1) (eval_runs _ w n e)
        (dlq_script-IsParked id fields w)

  count_parked-IsParked :
      (id : Text) (n : ℕ) (s : State sv)
      → IsParked id s.world
      → IsParked id (count_parked sv cfg n s).state.world
  unfolding count_parked
  count_parked-IsParked id n s p =
      rw (then-pure_state (count_if (n == 1)) (n == 1) s) (by_test (n == 1))
    where
      count_if : Bool → M sv (Unit {0})
      count_if b =
          if b
          then issue (Call.incr (codes "metrics:articles:dlq") 1)
              (sv.incr (codes "metrics:articles:dlq") 1)
          else pure tt

      by_test : (b : Bool) → IsParked id (count_if b s).state.world
      by_test true = unfold issue in incr_keeps _ _ _ _ _ ∙ p
      by_test false = unfold pure in p

  -- Once the script has run, the id stays parked, whatever the counter does.
  park-IsParked :
      (id : Text) (fields : List (Text × Text)) (s : State sv) (n : ℕ)
      → (sv.eval (dlq_script sv cfg id fields) s.world).0 ≡ ok n
      → IsParked id (park sv cfg id fields s).state.world
  unfolding park issue
  park-IsParked id fields s n e =
      let k =
        bind-Continued (issue (Call.eval id fields) (sv.eval (dlq_script sv cfg id fields)))
          (count_parked sv cfg) s n e in
      subst (λ (t : State sv). IsParked id t.world) (sym k.state)
        (count_parked-IsParked id n _ (eval-IsParked id fields s.world n e))

  script_again :
      (id : Text) (fields : List (Text × Text)) (w : sv.World) (n : ℕ)
      → IsParked id w
      → (sv.eval (dlq_script sv cfg id fields) w).0 ≡ ok n
      → (n ≡ 0) × ((sv.eval (dlq_script sv cfg id fields) w).1 ≡ w)
  unfolding dlq_script
  script_again id fields w n p e =
      let runs : (0, w) ≡ (n, (sv.eval (dlq_script sv cfg id fields) w).1) =
        rw p at (eval_runs (dlq_script sv cfg id fields) w n e) in
      (sym (ap (λ (x : ℕ × sv.World). x.0) runs), sym (ap (λ (x : ℕ × sv.World). x.1) runs))

  park_again :
      (id : Text) (fields : List (Text × Text)) (s : State sv) (n : ℕ)
      → IsParked id s.world
      → (sv.eval (dlq_script sv cfg id fields) s.world).0 ≡ ok n
      → ((park sv cfg id fields s).result ≡ ok false) × ((park sv cfg id fields s).state ≡ s)
  unfolding park issue count_parked pure ◌>>=◌ ◌>>◌
  park_again id fields s n p e =
      let k =
        bind-Continued (issue (Call.eval id fields) (sv.eval (dlq_script sv cfg id fields)))
          (count_parked sv cfg) s n e in
      let (none_new, same) = script_again id fields s.world n p e in
      let t = record s { world = (sv.eval (dlq_script sv cfg id fields) s.world).1 } in
      (
        k.result ∙ ap (λ (i : ℕ). (count_parked sv cfg i t).result) none_new,
        k.state
            ∙ ap (λ (i : ℕ). (count_parked sv cfg i t).state) none_new
            ∙ ap (λ (w : sv.World). record s { world = w }) same,
      )

  -- Where the id is parked, a push returns False, and a script that runs leaves the state alone.
  push_dlq_again :
      (id reason detail : Text) (a : Article) (s : State sv)
      → IsParked id s.world
      → ((push_dlq sv cfg lib id a reason detail s).result ≡ ok false)
        × ((m : ℕ)
            → (sv.eval (dlq_script sv cfg id (dlq_fields lib id a reason detail)) s.world).0 ≡ ok m
            → (push_dlq sv cfg lib id a reason detail s).state ≡ s)
  unfolding push_dlq park issue
  push_dlq_again id reason detail a s p = (
    by_outcome (sv.eval (dlq_script sv cfg id (dlq_fields lib id a reason detail)) s.world).0 refl,
    λ m e.
        catch-state (park sv cfg id (dlq_fields lib id a reason detail)) false s
        ∙ (park_again id (dlq_fields lib id a reason detail) s m p e).1,
  )
    where
      by_outcome :
          (o : Outcome ℕ)
          → (sv.eval (dlq_script sv cfg id (dlq_fields lib id a reason detail)) s.world).0 ≡ o
          → (push_dlq sv cfg lib id a reason detail s).result ≡ ok false
      by_outcome (ok m) e =
          catch-ok (park sv cfg id (dlq_fields lib id a reason detail)) false s false
            (park_again id (dlq_fields lib id a reason detail) s m p e).0
      by_outcome (raise x) e =
          let k =
            bind-raise
              (issue (Call.eval id (dlq_fields lib id a reason detail))
                (sv.eval (dlq_script sv cfg id (dlq_fields lib id a reason detail))))
              (count_parked sv cfg) s x e in
          catch-raise (park sv cfg id (dlq_fields lib id a reason detail)) false s x k.result

  script-keeps :
      (id j : Text) (fields : List (Text × Text)) (w : sv.World)
      → IsParked j w
      → IsParked j (dlq_script sv cfg id fields w).1
  unfolding dlq_script
  script-keeps id j fields w p = elim (Bool-cases (sv.sismember cfg.dlq_seen_key id w)) [
    | inl old ↦ rw old p
    | inr new ↦ rw new (xadd_keeps _ _ _ _ _ _ ∙ sadd_keeps _ _ _ _ p)
  ]

  eval-keeps :
      (id j : Text) (fields : List (Text × Text)) (w : sv.World)
      → IsParked j w
      → IsParked j (sv.eval (dlq_script sv cfg id fields) w).1
  eval-keeps id j fields w p = elim (eval_world (dlq_script sv cfg id fields) w) [
    | inl same ↦ rw same p
    | inr ran ↦ rw ran (script-keeps id j fields w p)
  ]

  park-keeps :
      (id j : Text) (fields : List (Text × Text)) (s : State sv)
      → IsParked j s.world
      → IsParked j (park sv cfg id fields s).state.world
  unfolding park issue
  park-keeps id j fields s p = by_outcome (sv.eval (dlq_script sv cfg id fields) s.world).0 refl
    where
      first : M sv ℕ
      first = issue (Call.eval id fields) (sv.eval (dlq_script sv cfg id fields))

      by_outcome :
          (o : Outcome ℕ)
          → (sv.eval (dlq_script sv cfg id fields) s.world).0 ≡ o
          → IsParked j (park sv cfg id fields s).state.world
      by_outcome (ok n) e =
          let k = bind-Continued first (count_parked sv cfg) s n e in
          subst (λ (t : State sv). IsParked j t.world) (sym k.state)
            (count_parked-IsParked j n _ (eval-keeps id j fields s.world p))
      by_outcome (raise x) e =
          let k = bind-raise first (count_parked sv cfg) s x e in
          subst (λ (t : State sv). IsParked j t.world) (sym k.state)
            (eval-keeps id j fields s.world p)

  push_dlq-keeps :
      (id j reason detail : Text) (a : Article) (s : State sv)
      → IsParked j s.world
      → IsParked j (push_dlq sv cfg lib id a reason detail s).state.world
  unfolding push_dlq
  push_dlq-keeps id j reason detail a s p =
      subst (λ (t : State sv). IsParked j t.world)
        (sym (catch-state (park sv cfg id (dlq_fields lib id a reason detail)) false s))
        (park-keeps id j (dlq_fields lib id a reason detail) s p)

  -- The states that come after `s`: by pushes of any messages, whatever becomes of them, and by any
  -- other steps that remove no member of the set of parked ids.
  pub data Since (s : State sv) : State sv → Type 0 where
    now : Since s s
    pushed :
        {t : State sv} (id reason detail : Text) (a : Article)
        → Since s t
        → Since s (push_dlq sv cfg lib id a reason detail t).state
    otherwise :
        {t u : State sv}
        → ((id : Text) → IsParked id t.world → IsParked id u.world)
        → Since s t
        → Since s u

  Since-keeps : {s t : State sv} (id : Text) → Since s t → IsParked id s.world → IsParked id t.world
  Since-keeps id now p = p
  Since-keeps id (pushed j reason detail a since) p =
      push_dlq-keeps j id reason detail a _ (Since-keeps id since p)
  Since-keeps id (otherwise kept since) p = kept id (Since-keeps id since p)

  -- After a `push_dlq` whose script ran, and whatever pushes of any messages and other steps that
  -- remove no parked id come in between, another one with the same message id, whatever its article
  -- and reason, returns False; and where its script runs too, it leaves the state as it was, so no
  -- second entry is added.
  pub push_dlq_once :
      (id : Text) (a a' : Article) (reason detail reason' detail' : Text) (s t : State sv) (n : ℕ)
      → (sv.eval (dlq_script sv cfg id (dlq_fields lib id a reason detail)) s.world).0 ≡ ok n
      → Since (push_dlq sv cfg lib id a reason detail s).state t
      → ((push_dlq sv cfg lib id a' reason' detail' t).result ≡ ok false)
        × ((m : ℕ)
            → (sv.eval (dlq_script sv cfg id (dlq_fields lib id a' reason' detail')) t.world).0
              ≡ ok m
            → (push_dlq sv cfg lib id a' reason' detail' t).state ≡ t)
  unfolding push_dlq
  push_dlq_once id a a' reason detail reason' detail' s t n e since =
      let fields = dlq_fields lib id a reason detail in
      let parked =
        subst (λ (t : State sv). IsParked id t.world)
          (sym (catch-state (park sv cfg id fields) false s)) (park-IsParked id fields s n e) in
      push_dlq_again id reason' detail' a' t (Since-keeps id since parked)
