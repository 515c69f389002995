-- ===== src/Services/Emits.antt =====
-- Which calls a function issues, and what its result satisfies: one rule for each way to build it.
use mathlib.Core.Path.{subst}
use webspider.Services.Invert.{catch-calls}
use webspider.Prelude.{sym, Bool, true, false, if◌then◌else◌, All, All-mono, All-append}
use webspider.Outcome.{Outcome, ok, raise, Error}
use webspider.Services.{Services, Call}
use webspider.Services.Run.{State, M, pure, throw, lift, issue, catch, continue, ◌>>=◌, ◌>>◌}

-- Every call that `m` issues satisfies `P`, whatever the services answer.
pub record Emits {ℓ} {sv : Services} {A : Type ℓ} (P : Call → Type 0) (m : M sv A) : Type ℓ where
  pub at : (s : State sv) → All P (m s).calls

module _ {ℓ} {sv : Services} {A : Type ℓ} {P : Call → Type 0} where
  pub Emits-pure : (a : A) → Emits {sv = sv} P (pure a)
  unfolding pure
  Emits-pure a = record { at = λ s. tt }

  pub Emits-throw : (e : Error) → Emits {sv = sv} {A = A} P (throw e)
  unfolding throw
  Emits-throw e = record { at = λ s. tt }

  pub Emits-lift : (r : Outcome A) → Emits {sv = sv} P (lift r)
  unfolding lift
  Emits-lift r = record { at = λ s. tt }

  pub Emits-issue :
      (c : Call) (f : sv.World → Outcome A × sv.World) → P c → Emits {sv = sv} P (issue c f)
  unfolding issue
  Emits-issue c f h = record { at = λ s. (h, tt) }

  pub Emits-mono :
      {Q : Call → Type 0} (m : M sv A) → ((c : Call) → P c → Q c) → Emits P m → Emits Q m
  Emits-mono m up h = record { at = λ s. All-mono P _ up _ (h.at s) }

  pub Emits-catch : (m : M sv A) (d : A) → Emits P m → Emits P (catch m d)
  Emits-catch m d h = record { at = λ s. subst (All P) (sym (catch-calls m d s)) (h.at s) }

  pub Emits-if : (b : Bool) (m n : M sv A) → Emits P m → Emits P n → Emits P (if b then m else n)
  Emits-if true m n hm hn = hm
  Emits-if false m n hm hn = hn

module _ {ℓ κ} {sv : Services} {A : Type ℓ} {B : Type κ} {P : Call → Type 0} where
  Emits-continue :
      (r : Outcome A) (f : A → M sv B) → ((a : A) → Emits P (f a)) → Emits P (continue r f)
  unfolding continue
  Emits-continue (ok a) f h = record { at = (h a).at }
  Emits-continue (raise e) f h = record { at = λ s. tt }

  pub Emits-bind :
      (m : M sv A) (f : A → M sv B) → Emits P m → ((a : A) → Emits P (f a)) → Emits P (m >>= f)
  unfolding ◌>>=◌
  Emits-bind m f hm hf = record {
    at = λ s. All-append P _ _ (hm.at s) ((Emits-continue (m s).result f hf).at (m s).state);
  }

  pub Emits-then : (m : M sv A) (n : M sv B) → Emits P m → Emits P n → Emits P (m >> n)
  unfolding ◌>>◌
  Emits-then m n hm hn = Emits-bind m (λ _. n) hm (λ _. hn)

pub ruleset emits_rules = (
  Emits-pure, Emits-throw, Emits-lift, Emits-issue, Emits-catch, Emits-if, Emits-bind, Emits-then,
)
