-- ===== src/Common/Http.antt =====
-- The exceptions of the services, as values.
use mathlib.Core.Option.{Option}
use Prim.Native.Nat.{ℕ}
use Prim.Native.String.{String}
use mathlib.Core.Path.{◌≡◌, refl}
use mathlib.Core.Logic.{◌⊎◌, inl, inr}

-- The subclasses of `HttpException` that the modelled code throws.
pub data Status : Type 0 where
  bad_request unauthorized forbidden not_found conflict unprocessable too_many_requests
        bad_gateway :
      Status

-- `query_failed` is TypeORM's `QueryFailedError` with the driver's `code` and `constraint`;
-- `request_failed` is an error of the HTTP client: the status of the response, and the `code` and
-- `error_subcode` of Meta's error in it, where there is one; `failure` is any other error, by its
-- message.
pub data Exception : Type 0 where
  http : Status → String → Exception
  query_failed : (code constraint : Option String) → Exception
  request_failed : (status code subcode : Option ℕ) → Exception
  failure : String → Exception

pub data Result {ℓ} (A : Type ℓ) : Type ℓ where
  ok : A → Result A
  err : Exception → Result A

pub Result-cases {ℓ} :
    {A : Type ℓ} (r : Result A) → ((a : A) × (r ≡ ok a)) ⊎ ((e : Exception) × (r ≡ err e))
Result-cases (ok a) = inl (a, refl)
Result-cases (err e) = inr (e, refl)
