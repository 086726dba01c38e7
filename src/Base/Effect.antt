-- ===== src/Base/Effect.antt =====
-- Results of fallible calls, and calls that change the world outside the process.
use mathlib.Core.Path.{◌≡◌, refl}
use mathlib.Core.Logic.{◌⊎◌, inl, inr}
use mathlib.Core.Bool.{Bool, true, false}

-- What `errors.IsNotFound` and `errors.IsAlreadyExists` tell apart.
pub data ApiError : Type 0 where
  not_found already_exists other : ApiError

pub data Result {ℓ} (A : Type ℓ) : Type ℓ where
  ok : A → Result A
  err : ApiError → Result A

abbrev pub is_ok {ℓ} : {A : Type ℓ} → Result A → Bool
is_ok (ok a) = true
is_ok (err e) = false

-- A call that reads and changes a state `S`.
abbrev pub Effect : Type 0 → Type 0 → Type 0
Effect S A = S → A × S

abbrev pub pure : {S A : Type 0} → A → Effect S A
pure a s = (a, s)

abbrev pub gets : {S A : Type 0} → (S → A) → Effect S A
gets f s = (f s, s)

infixl 5 ◌>>=◌ ◌>>◌
abbrev pub ◌>>=◌ : {S A B : Type 0} → Effect S A → (A → Effect S B) → Effect S B
◌>>=◌ m f s = let (a, s') = m s in f a s'

abbrev pub ◌>>◌ : {S A B : Type 0} → Effect S A → Effect S B → Effect S B
m >> k = m >>= λ _. k

pub Result-cases {ℓ} :
    {A : Type ℓ} (r : Result A) → ((a : A) × (r ≡ ok a)) ⊎ ((e : ApiError) × (r ≡ err e))
Result-cases (ok a) = inl (a, refl)
Result-cases (err e) = inr (e, refl)
