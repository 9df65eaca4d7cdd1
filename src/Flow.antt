-- ===== src/Flow.antt =====
-- Handlers: a step reads and changes the state, and either goes on with a value or ends the
-- handler with its reply, as an early `return` does. State that was changed before stays changed.
use drasl.Prelude.{◌≡◌, refl, ◌⊎◌, inl, inr, Option, none, some, Bool, if◌then◌else◌}

pub data Flow {ℓ} (R A : Type ℓ) : Type ℓ where
  next : A → Flow R A
  done : R → Flow R A

abbrev pub Exec {ℓ} : Type ℓ → Type ℓ → Type ℓ → Type ℓ
Exec S R A = S → Flow R A × S

pub Flow-cases {ℓ} :
    {R A : Type ℓ} (m : Flow R A) → ((a : A) × (m ≡ next a)) ⊎ ((r : R) × (m ≡ done r))
Flow-cases (next a) = inl (a, refl)
Flow-cases (done r) = inr (r, refl)

module _ {ℓ} {S R A : Type ℓ} where
  abbrev pub pure : A → Exec S R A
  pure a s = (next a, s)

  -- `return r`
  abbrev pub stop : R → Exec S R A
  stop r s = (done r, s)

  -- a part that leaves the state alone
  abbrev pub lift : Flow R A → Exec S R A
  lift m s = (m, s)

  abbrev pub gets : (S → A) → Exec S R A
  gets f s = (next (f s), s)

  -- `if test { return r }`, then the rest
  abbrev pub need : Option A → R → Exec S R A
  need none r = stop r
  need (some a) r = pure a

module _ {ℓ} {S R A B : Type ℓ} where
  abbrev pub continue : Flow R A → (A → Exec S R B) → Exec S R B
  continue (next a) f s = f a s
  continue (done r) f s = (done r, s)

  infixl 5 ◌>>=◌ ◌>>◌
  abbrev pub ◌>>=◌ : Exec S R A → (A → Exec S R B) → Exec S R B
  ◌>>=◌ m f s = continue (m s).0 f (m s).1

  abbrev pub ◌>>◌ : Exec S R A → Exec S R B → Exec S R B
  m >> n = m >>= λ _. n

-- `if !test { return r }`
abbrev pub guard {ℓ} : {S R : Type ℓ} → Bool → R → Exec S R (Unit {ℓ})
guard test r s = if test then (next tt, s) else (done r, s)

-- The reply of a handler whose last step returns.
abbrev pub reply_of {ℓ} : {R : Type ℓ} → Flow R R → R
reply_of (next r) = r
reply_of (done r) = r

-- Runs a handler: its reply, and the state that it leaves.
abbrev pub run {ℓ} : {S R : Type ℓ} → Exec S R R → S → R × S
run m s = (reply_of (m s).0, (m s).1)
