-- ===== src/Errors.antt =====
-- Go's `error` values, known by their texts, and fallible results. A message that the program
-- shows is a text of the same kind.
use drasl.Prelude.{ℕ, ◌≡◌, refl, ◌⊎◌, inl, inr, Bool, true, false, Bytes, ◌==◌, String}

pub data Error : Type 0 where
  -- a fixed text
  text : String → Error
  -- a format with one string, with one number, with an error, or with a string and an error
  with_string : String → Bytes → Error
  with_number : String → ℕ → Error
  with_error : String → Error → Error
  with_both : String → Bytes → Error → Error
  -- `gorm.ErrRecordNotFound`
  record_not_found : Error
  -- "UNIQUE constraint failed: " and the field
  unique_failed : Bytes → Error
  -- any other error of a library or of the system
  external : String → Error

pub data Result {ℓ} (A : Type ℓ) : Type ℓ where
  ok : A → Result A
  err : Error → Result A

infixl 5 ◌>>=◌ ◌>>◌
abbrev pub ◌>>=◌ {ℓ κ} : {A : Type ℓ} {B : Type κ} → Result A → (A → Result B) → Result B
ok a >>= f = f a
err e >>= f = err e

abbrev pub ◌>>◌ {ℓ κ} : {A : Type ℓ} {B : Type κ} → Result A → Result B → Result B
m >> k = m >>= λ _. k

abbrev pub is_ok {ℓ} : {A : Type ℓ} → Result A → Bool
is_ok (ok _) = true
is_ok (err _) = false

-- `errors.Is(err, gorm.ErrRecordNotFound)`
abbrev pub is_not_found : Error → Bool
is_not_found record_not_found = true
is_not_found _ = false

-- `IsErrorUniqueFailed` of common.go at an error that is not nil. Its target is an interface with
-- the methods of `error`, to which `errors.As` assigns every error.
unfoldable pub is_error_unique_failed : Error → Bool
is_error_unique_failed e = true

-- `IsErrorUniqueFailedField`: the text is compared.
unfoldable pub is_error_unique_failed_field : Error → Bytes → Bool
is_error_unique_failed_field (unique_failed f) field = f == field
is_error_unique_failed_field _ field = false

-- To split on a computed result and keep the equation.
pub Result-cases {ℓ} :
    {A : Type ℓ} (r : Result A) → ((a : A) × (r ≡ ok a)) ⊎ ((e : Error) × (r ≡ err e))
Result-cases (ok a) = inl (a, refl)
Result-cases (err e) = inr (e, refl)

-- What a sequence that gives a value has gone through.
pub bind-ok {ℓ κ} :
    {A : Type ℓ} {B : Type κ} (m : Result A) (f : A → Result B) (b : B)
    → (m >>= f) ≡ ok b
    → (a : A) × (m ≡ ok a) × (f a ≡ ok b)
bind-ok (ok a) f b h = (a, refl, h)
bind-ok (err e) f b h = absurd (cc h)
