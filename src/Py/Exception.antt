-- ===== src/Py/Exception.antt =====
-- Exceptions that the service raises, catches or classifies, and code that may raise one.
use mathlib.Core.Bool.{Bool}

-- `dbapi_error` holds `connection_invalidated`; it stands for each `DBAPIError` that is no
-- `OperationalError` and no `InterfaceError` (an `IntegrityError`, a `DataError`).
pub data Exception : Type 0 where
  attribute_error key_error type_error value_error runtime_error : Exception
  operational_error interface_error sql_timeout_error os_error timeout_error : Exception
  dbapi_error : Bool → Exception
  http_error users_service_unavailable : Exception

pub data Result {ℓ} (A : Type ℓ) : Type ℓ where
  ok : A → Result A
  raise : Exception → Result A

infixl 5 ◌>>=◌
abbrev pub ◌>>=◌ {ℓ κ} : {A : Type ℓ} {B : Type κ} → Result A → (A → Result B) → Result B
ok a >>= f = f a
raise e >>= f = raise e
