-- ===== src/Services/Run.antt =====
-- What a Python function that calls the services does: its result or exception, the state that it
-- leaves, and the calls that it issued, in order. The state holds, beside the services' world, the
-- deque `seen_hashes` that `main` passes to every batch and that an exception does not undo.
use webspider.Prelude.{ℕ, List, [], ◌∷◌, ◌++◌}
use webspider.Outcome.{Outcome, ok, raise, Error}
use webspider.Services.{Services, Call}

pub record State (sv : Services) : Type 0 where
  pub world : sv.World
  pub seen : List ℕ

pub record Run {ℓ} (sv : Services) (A : Type ℓ) : Type ℓ where
  pub result : Outcome A
  pub state : State sv
  pub calls : List Call

abbrev pub M {ℓ} : Services → Type ℓ → Type ℓ
M sv A = State sv → Run sv A

module _ {ℓ} {sv : Services} {A : Type ℓ} where
  unfoldable pub pure : A → M sv A
  pure a s = record { result = ok a; state = s; calls = [] }

  unfoldable pub throw : Error → M sv A
  throw e s = record { result = raise e; state = s; calls = [] }

  -- An outcome computed without the services.
  unfoldable pub lift : Outcome A → M sv A
  lift r s = record { result = r; state = s; calls = [] }

  -- One call of a service.
  unfoldable pub issue : Call → (sv.World → Outcome A × sv.World) → M sv A
  issue c f s =
      let (r, w) = f s.world in
      record { result = r; state = record s { world = w }; calls = c ∷ [] }

  unfoldable pub handle : A → Run sv A → Outcome A → Run sv A
  handle d r (ok a) = r
  handle d r (raise e) = record r { result = ok d }

  -- `try: m; except Exception: return d`
  unfoldable pub catch : M sv A → A → M sv A
  unfolding handle
  catch m d s = let r = m s in handle d r r.result

module _ {ℓ κ} {sv : Services} {A : Type ℓ} {B : Type κ} where
  unfoldable pub continue : Outcome A → (A → M sv B) → M sv B
  continue (ok a) f s = f a s
  continue (raise e) f s = record { result = raise e; state = s; calls = [] }

  infixl 10 ◌>>=◌ ◌>>◌
  unfoldable pub ◌>>=◌ : M sv A → (A → M sv B) → M sv B
  unfolding continue
  ◌>>=◌ m f s =
      let r = m s in
      let r' = continue r.result f r.state in record r' { calls = r.calls ++ r'.calls }

  unfoldable pub ◌>>◌ : M sv A → M sv B → M sv B
  unfolding ◌>>=◌
  ◌>>◌ m n = m >>= λ _. n
