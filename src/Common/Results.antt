-- ===== src/Common/Results.antt =====
-- HTTP exceptions of NestJS by their kind and message, `internal` for any other error, and the result of code that may throw one.
use Prim.Native.String.{String}
use mathlib.Core.Path.{◌≡◌, refl}
use mathlib.Core.Logic.{◌⊎◌, inl, inr}

pub data HttpError : Type 0 where
  bad_request not_found forbidden unauthorized internal : String → HttpError

pub data Result {ℓ} (A : Type ℓ) : Type ℓ where
  ok : A → Result A
  err : HttpError → Result A

-- `await` of a step that may throw, and of one that answers nothing.
infixl 5 ◌>>=◌ ◌>>◌
abbrev pub ◌>>=◌ {ℓ κ} : {A : Type ℓ} {B : Type κ} → Result A → (A → Result B) → Result B
err exception >>= next = err exception
ok answer >>= next = next answer

abbrev pub ◌>>◌ {ℓ} : {B : Type ℓ} → Result (Unit {0}) → Result B → Result B
first >> second = first >>= λ _. second

abbrev pub message_of : HttpError → String
message_of (bad_request message) = message
message_of (not_found message) = message
message_of (forbidden message) = message
message_of (unauthorized message) = message
message_of (internal message) = message

pub Result-cases {ℓ} :
    {A : Type ℓ} (r : Result A) → ((a : A) × (r ≡ ok a)) ⊎ ((e : HttpError) × (r ≡ err e))
Result-cases (ok a) = inl (a, refl)
Result-cases (err e) = inr (e, refl)
