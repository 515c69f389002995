-- ===== src/Services/Keeps.antt =====
-- Functions that leave a view of the services' world alone, whether they return or raise.
use webspider.Services.Invert.{catch-state}
use webspider.Prelude.{◌≡◌, refl, ap, ◌∙◌, Bool, true, false, if◌then◌else◌}
use webspider.Outcome.{Outcome, ok, raise}
use webspider.Services.{Services, Call}
use webspider.Services.Run.{State, M, pure, lift, issue, catch, continue, ◌>>=◌, ◌>>◌}

pub record Keeps {ℓ} {sv : Services} {A : Type ℓ} {X : Type 0} (view : sv.World → X) (m : M sv A)
    : Type ℓ where
  pub at : (s : State sv) → view (m s).state.world ≡ view s.world

-- A call of a service that leaves the view alone.
pub record Spares {ℓ} {W : Type 0} {A : Type ℓ} {X : Type 0} (view : W → X) (f : W → Outcome A × W)
    : Type ℓ where
  pub at : (w : W) → view (f w).1 ≡ view w

module _ {ℓ} {sv : Services} {A : Type ℓ} {X : Type 0} {view : sv.World → X} where
  pub Keeps-pure : (a : A) → Keeps {sv = sv} view (pure a)
  unfolding pure
  Keeps-pure a = record { at = λ s. refl }

  pub Keeps-lift : (r : Outcome A) → Keeps {sv = sv} view (lift r)
  unfolding lift
  Keeps-lift r = record { at = λ s. refl }

  pub Keeps-issue :
      (c : Call) (f : sv.World → Outcome A × sv.World)
      → Spares view f
      → Keeps {sv = sv} view (issue c f)
  unfolding issue
  Keeps-issue c f h = record { at = λ s. h.at s.world }

  pub Keeps-catch : (m : M sv A) (d : A) → Keeps view m → Keeps view (catch m d)
  Keeps-catch m d h = record {
    at = λ s. ap (λ (t : State sv). view t.world) (catch-state m d s) ∙ h.at s;
  }

  pub Keeps-if :
      (b : Bool) (m n : M sv A) → Keeps view m → Keeps view n → Keeps view (if b then m else n)
  Keeps-if true m n hm hn = hm
  Keeps-if false m n hm hn = hn

module _ {ℓ κ} {sv : Services} {A : Type ℓ} {B : Type κ} {X : Type 0} {view : sv.World → X} where
  Keeps-continue :
      (o : Outcome A) (f : A → M sv B) → ((a : A) → Keeps view (f a)) → Keeps view (continue o f)
  unfolding continue
  Keeps-continue (ok a) f h = record { at = (h a).at }
  Keeps-continue (raise e) f h = record { at = λ s. refl }

  pub Keeps-bind :
      (m : M sv A) (f : A → M sv B)
      → Keeps view m
      → ((a : A) → Keeps view (f a))
      → Keeps view (m >>= f)
  unfolding ◌>>=◌
  Keeps-bind m f hm hf = record {
    at = λ s. (Keeps-continue (m s).result f hf).at (m s).state ∙ hm.at s;
  }

  pub Keeps-then : (m : M sv A) (n : M sv B) → Keeps view m → Keeps view n → Keeps view (m >> n)
  unfolding ◌>>◌
  Keeps-then m n hm hn = Keeps-bind m (λ _. n) hm (λ _. hn)

pub ruleset keeps_rules =
    (Keeps-pure, Keeps-lift, Keeps-issue, Keeps-catch, Keeps-if, Keeps-bind, Keeps-then)
