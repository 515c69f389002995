-- ===== src/Action/Sparing.antt =====
-- Actions that leave a view of the world alone, whether they return or raise.
use webspider.Prelude.{refl, ◌∙◌}
use webspider.Outcome.{Outcome, ok, raise}
use webspider.Services.Keeps.{Spares}
use webspider.Action.{Action, pure, lift, continue, ◌>>=◌, ◌>>◌}

module _ {ℓ} {W : Type 0} {A : Type ℓ} {X : Type 0} {view : W → X} where
  pub Spares-pure : (a : A) → Spares view (pure {W = W} a)
  unfolding pure
  Spares-pure a = record { at = λ w. refl }

  pub Spares-lift : (o : Outcome A) → Spares view (lift {W = W} o)
  unfolding lift
  Spares-lift o = record { at = λ w. refl }

module _ {ℓ κ} {W : Type 0} {A : Type ℓ} {B : Type κ} {X : Type 0} {view : W → X} where
  Spares-continue :
      (f : A → Action W B) (o : Outcome A)
      → ((a : A) → Spares view (f a))
      → Spares view (continue f o)
  unfolding continue
  Spares-continue f (ok a) h = record { at = (h a).at }
  Spares-continue f (raise e) h = record { at = λ w. refl }

  pub Spares-bind :
      (m : Action W A) (f : A → Action W B)
      → Spares view m
      → ((a : A) → Spares view (f a))
      → Spares view (m >>= f)
  unfolding ◌>>=◌
  Spares-bind m f hm hf = record { at = λ w. (Spares-continue f (m w).0 hf).at (m w).1 ∙ hm.at w }

  pub Spares-then :
      (m : Action W A) (n : Action W B) → Spares view m → Spares view n → Spares view (m >> n)
  unfolding ◌>>◌
  Spares-then m n hm hn = Spares-bind m (λ _. n) hm (λ _. hn)

pub ruleset spares_rules = (Spares-pure, Spares-lift, Spares-bind, Spares-then)
