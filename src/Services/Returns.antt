-- ===== src/Services/Returns.antt =====
-- What holds of the value that a function returns, when it returns one: a rule for each way to
-- build it.
use webspider.Prelude.{◌≡◌, refl, sym, ◌∙◌, Bool, true, false, if◌then◌else◌}
use webspider.Outcome.{Outcome, ok, ok-injective}
use webspider.Services.{Services}
use webspider.Services.Run.{State, M, pure, lift, ◌>>=◌, ◌>>◌}
use webspider.Services.Invert.{bind-eq-ok}
use mathlib.Core.Path.{subst}

pub record Returns {ℓ} {sv : Services} {A : Type ℓ} (Q : A → Type 0) (m : M sv A) : Type ℓ where
  pub at : (s : State sv) (a : A) → (m s).result ≡ ok a → Q a

module _ {ℓ} {sv : Services} {A : Type ℓ} {Q : A → Type 0} where
  pub Returns-pure : (a : A) → Q a → Returns {sv = sv} Q (pure a)
  unfolding pure
  Returns-pure a h = record { at = λ s b e. subst Q (ok-injective e) h }

  pub Returns-lift : (r : Outcome A) → ((a : A) → r ≡ ok a → Q a) → Returns {sv = sv} Q (lift r)
  unfolding lift
  Returns-lift r h = record { at = λ s. h }

  pub Returns-if :
      (b : Bool) (m n : M sv A)
      → (b ≡ true → Returns Q m)
      → (b ≡ false → Returns Q n)
      → Returns Q (if b then m else n)
  Returns-if true m n hm hn = hm refl
  Returns-if false m n hm hn = hn refl

module _ {ℓ κ} {sv : Services} {A : Type ℓ} {B : Type κ} {R : B → Type 0} where
  pub Returns-bind :
      (Q : A → Type 0) (m : M sv A) (f : A → M sv B)
      → Returns Q m
      → ((a : A) → Q a → Returns R (f a))
      → Returns R (m >>= f)
  Returns-bind Q m f hm hf = record {
    at = λ s b e.
        let (a, k) = bind-eq-ok m f s e in
        (hf a (hm.at s a k.first)).at (m s).state b (sym k.result ∙ e);
  }

  -- A first part of whose value nothing is used.
  pub Returns-bind_any :
      (m : M sv A) (f : A → M sv B) → ((a : A) → Returns R (f a)) → Returns R (m >>= f)
  Returns-bind_any m f hf =
      Returns-bind (λ _. Unit {0}) m f (record { at = λ s a e. tt }) (λ a _. hf a)

  pub Returns-then : (m : M sv A) (n : M sv B) → Returns R n → Returns R (m >> n)
  unfolding ◌>>◌
  Returns-then m n hn = Returns-bind_any m (λ _. n) (λ _. hn)
