-- ===== src/Outcome.antt =====
-- What a Python call does: it returns a value or raises an exception.
use webspider.Prelude.{◌≡◌, ap}

pub data Error : Type 0 where
  -- raised by the code itself
  value_error key_error type_error zero_division overflow_error attribute_error rate_limited
        search_unavailable system_exit :
      Error
  -- raised by the services and libraries behind it
  redis_error database_error fetch_error library_error : Error

pub data Outcome {ℓ} (A : Type ℓ) : Type ℓ where
  ok : A → Outcome A
  raise : Error → Outcome A

unwrap_or {ℓ} : {A : Type ℓ} → A → Outcome A → A
unwrap_or d (ok a) = a
unwrap_or d (raise e) = d

pub ok-injective {ℓ} : {A : Type ℓ} {a b : A} → ok a ≡ ok b → a ≡ b
unfolding unwrap_or
ok-injective {a = x} e = ap (unwrap_or x) e
