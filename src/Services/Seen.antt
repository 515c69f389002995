-- ===== src/Services/Seen.antt =====
-- Functions that leave the deque of seen fingerprints alone.
use webspider.Prelude.{◌≡◌, refl, ◌∙◌, Bool, true, false, if◌then◌else◌}
use webspider.Outcome.{Outcome, ok, raise}
use webspider.Services.{Services, Call}
use webspider.Services.Run.{State, M, pure, lift, issue, continue, ◌>>=◌, ◌>>◌}

pub record KeepsSeen {ℓ} {sv : Services} {A : Type ℓ} (m : M sv A) : Type ℓ where
  pub at : (s : State sv) → (m s).state.seen ≡ s.seen

module _ {ℓ} {sv : Services} {A : Type ℓ} where
  pub KeepsSeen-pure : (a : A) → KeepsSeen {sv = sv} (pure a)
  unfolding pure
  KeepsSeen-pure a = record { at = λ s. refl }

  pub KeepsSeen-lift : (r : Outcome A) → KeepsSeen {sv = sv} (lift r)
  unfolding lift
  KeepsSeen-lift r = record { at = λ s. refl }

  pub KeepsSeen-issue :
      (c : Call) (f : sv.World → Outcome A × sv.World) → KeepsSeen {sv = sv} (issue c f)
  unfolding issue
  KeepsSeen-issue c f = record { at = λ s. refl }

  pub KeepsSeen-if :
      (b : Bool) (m n : M sv A) → KeepsSeen m → KeepsSeen n → KeepsSeen (if b then m else n)
  KeepsSeen-if true m n hm hn = hm
  KeepsSeen-if false m n hm hn = hn

module _ {ℓ κ} {sv : Services} {A : Type ℓ} {B : Type κ} where
  KeepsSeen-continue :
      (o : Outcome A) (f : A → M sv B) → ((a : A) → KeepsSeen (f a)) → KeepsSeen (continue o f)
  unfolding continue
  KeepsSeen-continue (ok a) f h = record { at = (h a).at }
  KeepsSeen-continue (raise e) f h = record { at = λ s. refl }

  pub KeepsSeen-bind :
      (m : M sv A) (f : A → M sv B)
      → KeepsSeen m
      → ((a : A) → KeepsSeen (f a))
      → KeepsSeen (m >>= f)
  unfolding ◌>>=◌
  KeepsSeen-bind m f hm hf = record {
    at = λ s. (KeepsSeen-continue (m s).result f hf).at (m s).state ∙ hm.at s;
  }

  -- What follows `m` leaves the deque as `m` left it.
  pub seen-bind :
      (m : M sv A) (f : A → M sv B) (s : State sv)
      → ((a : A) → KeepsSeen (f a))
      → ((m >>= f) s).state.seen ≡ (m s).state.seen
  unfolding ◌>>=◌
  seen-bind m f s hf = (KeepsSeen-continue (m s).result f hf).at (m s).state

  pub KeepsSeen-then : (m : M sv A) (n : M sv B) → KeepsSeen m → KeepsSeen n → KeepsSeen (m >> n)
  unfolding ◌>>◌
  KeepsSeen-then m n hm hn = KeepsSeen-bind m (λ _. n) hm (λ _. hn)

pub ruleset seen_rules =
    (KeepsSeen-pure, KeepsSeen-lift, KeepsSeen-issue, KeepsSeen-if, KeepsSeen-bind, KeepsSeen-then)
