-- ===== src/Client/Errors.antt =====
-- The exceptions of sophos_client.py, without their messages, and results that may raise one.
use ha_sophos_fw.Prelude.{String, ◌≡◌, refl, ◌⊎◌, inl, inr, Bool, true, false, Option}

pub data SophosError : Type 0 where
  connection_error auth_error api_error not_found_error : SophosError
  access_error write_error : Option String → SophosError

pub data Result {ℓ} (A : Type ℓ) : Type ℓ where
  ok : A → Result A
  err : SophosError → Result A

infixl 5 ◌>>=◌ ◌>>◌
abbrev pub ◌>>=◌ {ℓ κ} : {A : Type ℓ} {B : Type κ} → Result A → (A → Result B) → Result B
ok a >>= f = f a
err e >>= f = err e

abbrev pub ◌>>◌ {ℓ κ} : {A : Type ℓ} {B : Type κ} → Result A → Result B → Result B
m >> n = m >>= λ _. n

-- `if not test: raise e`
abbrev pub require : Bool → SophosError → Result (Unit {0})
require true e = ok tt
require false e = err e

-- `isinstance(exc, SophosAPIError)`: the class and its subclasses.
abbrev pub is_api_error : SophosError → Bool
is_api_error api_error = true
is_api_error not_found_error = true
is_api_error (write_error code) = true
is_api_error e = false

pub Result-cases {ℓ} :
    {A : Type ℓ} (r : Result A) → ((a : A) × (r ≡ ok a)) ⊎ ((e : SophosError) × (r ≡ err e))
Result-cases (ok a) = inl (a, refl)
Result-cases (err e) = inr (e, refl)
