-- ===== src/Action/Borrowing.antt =====
-- A connection of the pool that is taken for an action and given back behind it.
use webspider.Prelude.{ℕ, suc, ◌≡◌, ◌∙◌}
use webspider.Outcome.{Outcome, ok, raise, Error}
use webspider.Services.Keeps.{Spares}
use webspider.Action.{Action, ◌>>◌, finally, bind-elim}

module _ {W : Type 0} (get_conn put_conn : Action W (Unit {0})) where
  -- `with` a connection, or `get_conn` before a `try` that gives it back.
  unfoldable pub borrow {ℓ} : {A : Type ℓ} → Action W A → Action W A
  unfolding ◌>>◌ finally
  borrow m = get_conn >> finally m put_conn

  -- A pool with `out` connections checked out.
  pub record Pool (out : W → ℕ) : Type 0 where
    pub given : (w : W) → (get_conn w).0 ≡ ok tt → out (get_conn w).1 ≡ suc (out w)
    pub refused : (w : W) (e : Error) → (get_conn w).0 ≡ raise e → out (get_conn w).1 ≡ out w
    pub returned : (w : W) (n : ℕ) → out w ≡ suc n → out (put_conn w).1 ≡ n

  pub borrow-Spares {ℓ} :
      {A : Type ℓ} (out : W → ℕ) (m : Action W A) → Pool out → Spares out m → Spares out (borrow m)
  unfolding borrow ◌>>◌ finally
  borrow-Spares {A = A} out m pool h = record {
    at = λ w.
        bind-elim get_conn (λ _. finally m put_conn) w (λ (r : Outcome A × W). out r.1 ≡ out w)
          (λ a e. pool.returned (m (get_conn w).1).1 (out w) (h.at (get_conn w).1 ∙ pool.given w e))
          (λ x e. pool.refused w x e);
  }
