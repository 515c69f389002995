-- ===== src/Action.antt =====
-- What a Python function that talks to a database does, for the programs beside the processor: its
-- result or exception, and the world that it leaves.
pub mod Sparing
pub mod Borrowing
use webspider.Prelude.{◌≡◌, refl}
use webspider.Outcome.{Outcome, ok, raise, Error}

abbrev pub Action {ℓ} : Type 0 → Type ℓ → Type ℓ
Action W A = W → Outcome A × W

module _ {ℓ} {W : Type 0} {A : Type ℓ} where
  unfoldable pub pure : A → Action W A
  pure a w = (ok a, w)

  -- An outcome computed without the database.
  unfoldable pub lift : Outcome A → Action W A
  lift o w = (o, w)

-- The outcome that stands once the `finally` block has ended.
unfoldable pub outcome_of {ℓ κ} : {A : Type ℓ} {B : Type κ} → Outcome A → Outcome B → Outcome A
outcome_of o (ok b) = o
outcome_of o (raise e) = raise e

module _ {ℓ κ} {W : Type 0} {A : Type ℓ} {B : Type κ} where
  unfoldable pub continue : (A → Action W B) → Outcome A → Action W B
  continue f (ok a) w = f a w
  continue f (raise e) w = (raise e, w)

  infixl 10 ◌>>=◌ ◌>>◌
  unfoldable pub ◌>>=◌ : Action W A → (A → Action W B) → Action W B
  unfolding continue
  ◌>>=◌ m f w = let (o, w') = m w in continue f o w'

  unfoldable pub ◌>>◌ : Action W A → Action W B → Action W B
  unfolding ◌>>=◌
  ◌>>◌ m n = m >>= λ _. n

  -- `try: m; finally: n`
  unfoldable pub finally : Action W A → Action W B → Action W A
  unfolding outcome_of
  finally m n w = let (o, w') = m w in let (o', w'') = n w' in (outcome_of o o', w'')

  -- What a bind ends with, by how its first part ended.
  pub bind-elim {ν} :
      (m : Action W A) (f : A → Action W B) (w : W) (P : Outcome B × W → Type ν)
      → ((a : A) → (m w).0 ≡ ok a → P (f a (m w).1))
      → ((e : Error) → (m w).0 ≡ raise e → P (raise e, (m w).1))
      → P ((m >>= f) w)
  unfolding ◌>>=◌
  bind-elim m f w P returned raised = go (m w).0 refl
    where
      go : (o : Outcome A) → (m w).0 ≡ o → P (continue f o (m w).1)
      go (ok a) e = returned a e
      go (raise x) e = raised x e

  -- A bind that returned is its second part, run where the first one ended.
  pub bind-eq-ok :
      (m : Action W A) (f : A → Action W B) (w : W) (b : B)
      → ((m >>= f) w).0 ≡ ok b
      → (a : A) × ((m w).0 ≡ ok a) × ((m >>= f) w ≡ f a (m w).1)
  bind-eq-ok m f w b =
      bind-elim m f w
        (λ (r : Outcome B × W). r.0 ≡ ok b → (a : A) × ((m w).0 ≡ ok a) × (r ≡ f a (m w).1))
        (λ a e _. (a, e, refl)) (λ x e h. let no : ⊥ = cc in elim no [ ])
