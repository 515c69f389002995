-- ===== src/Services/Invert.antt =====
-- Inversion of a bind that returned, and of a bind that raised.
use mathlib.Core.List.{append-nil}
use webspider.Prelude.{◌≡◌, refl, ap, ◌∙◌, ◌++◌}
use webspider.Outcome.{Outcome, ok, raise, Error}
use webspider.Services.{Services}
use webspider.Services.Run.{State, Run, M, catch, handle, continue, pure, ◌>>=◌, ◌>>◌}

-- A bind is its second part, run where the first one ended.
pub record Continued {ℓ κ} {sv : Services} {A : Type ℓ} {B : Type κ} (m : M sv A) (f : A → M sv B)
    (s : State sv) (a : A) : Type (ℓ ⊔ κ) where
  pub first : (m s).result ≡ ok a
  pub result : ((m >>= f) s).result ≡ (f a (m s).state).result
  pub state : ((m >>= f) s).state ≡ (f a (m s).state).state
  pub calls : ((m >>= f) s).calls ≡ (m s).calls ++ (f a (m s).state).calls

-- The exception of a first part, as the whole that it ends.
pub record Raised {ℓ κ} {sv : Services} {A : Type ℓ} {B : Type κ} (e : Error) (r : Run sv A)
    (r' : Run sv B) : Type (ℓ ⊔ κ) where
  pub result : r'.result ≡ raise e
  pub state : r'.state ≡ r.state
  pub calls : r'.calls ≡ r.calls

module _ {ℓ κ} {sv : Services} {A : Type ℓ} {B : Type κ} (m : M sv A) (f : A → M sv B)
    (s : State sv) where
  pub bind-Continued : (a : A) → (m s).result ≡ ok a → Continued m f s a
  unfolding ◌>>=◌
  bind-Continued a e = record {
    first = e;
    result = ap (λ (o : Outcome A). (continue o f (m s).state).result) e;
    state = ap (λ (o : Outcome A). (continue o f (m s).state).state) e;
    calls = ap (λ (o : Outcome A). (m s).calls ++ (continue o f (m s).state).calls) e;
  }

  -- A first part that raises is all that is run.
  pub bind-raise : (e : Error) → (m s).result ≡ raise e → Raised e (m s) ((m >>= f) s)
  unfolding ◌>>=◌
  bind-raise e h = record {
    result = ap (λ (o : Outcome A). (continue o f (m s).state).result) h;
    state = ap (λ (o : Outcome A). (continue o f (m s).state).state) h;
    calls =
        ap (λ (o : Outcome A). (m s).calls ++ (continue o f (m s).state).calls) h
        ∙ append-nil (m s).calls;
  }

  -- What a bind ends with, by how its first part ended.
  pub bind-elim {ν} :
      (P : Outcome B → State sv → Type ν)
      → ((a : A) → (m s).result ≡ ok a → P (f a (m s).state).result (f a (m s).state).state)
      → ((e : Error) → (m s).result ≡ raise e → P (raise e) (m s).state)
      → P ((m >>= f) s).result ((m >>= f) s).state
  unfolding ◌>>=◌
  bind-elim P returned raised = go (m s).result refl
    where
      go :
          (o : Outcome A)
          → (m s).result ≡ o
          → P (continue o f (m s).state).result (continue o f (m s).state).state
      go (ok a) e = returned a e
      go (raise x) e = raised x e

  -- A bind that returns has run both parts.
  pub bind-eq-ok : {b : B} → ((m >>= f) s).result ≡ ok b → (a : A) × Continued m f s a
  unfolding ◌>>=◌
  bind-eq-ok {b} h = go (m s).result refl h
    where
      go :
          (o : Outcome A)
          → (m s).result ≡ o
          → (continue o f (m s).state).result ≡ ok b
          → (a : A) × Continued m f s a
      go (ok a) e h = (a, bind-Continued a e)
      go (raise x) e h = cc

module _ {ℓ} {sv : Services} {A : Type ℓ} (m : M sv A) (d : A) (s : State sv) where
  handled :
      (o : Outcome A)
      → ((handle d (m s) o).state ≡ (m s).state) × ((handle d (m s) o).calls ≡ (m s).calls)
  unfolding handle
  handled (ok a) = (refl, refl)
  handled (raise e) = (refl, refl)

  -- A caught exception leaves the state that it left, and its calls are issued.
  pub catch-state : (catch m d s).state ≡ (m s).state
  unfolding catch
  catch-state = (handled (m s).result).0

  pub catch-calls : (catch m d s).calls ≡ (m s).calls
  unfolding catch
  catch-calls = (handled (m s).result).1

  pub catch-ok : (a : A) → (m s).result ≡ ok a → (catch m d s).result ≡ ok a
  unfolding catch
  catch-ok a e = ap (λ (o : Outcome A). (handle d (m s) o).result) e ∙ e

  pub catch-raise : (x : Error) → (m s).result ≡ raise x → (catch m d s).result ≡ ok d
  unfolding catch
  catch-raise x e = ap (λ (o : Outcome A). (handle d (m s) o).result) e

module _ {ℓ κ} {sv : Services} {A : Type ℓ} {B : Type κ} where
  continue-pure_state :
      (o : Outcome A) (b : B) (s : State sv) → (continue o (λ _. pure {sv = sv} b) s).state ≡ s
  unfolding continue pure
  continue-pure_state (ok a) b s = refl
  continue-pure_state (raise e) b s = refl

  -- A value returned at the end changes nothing.
  pub then-pure_state : (m : M sv A) (b : B) (s : State sv) → ((m >> pure b) s).state ≡ (m s).state
  unfolding ◌>>◌ ◌>>=◌
  then-pure_state m b s = continue-pure_state (m s).result b (m s).state
