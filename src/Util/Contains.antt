-- ===== src/Util/Contains.antt =====
-- Lists without duplicates that grow by elements which they do not contain.
use drasl.Prelude.{
  ◌≡◌, ◌≢◌, refl, subst, ◌||◌, true, false, List, [], ◌∷◌, ◌++◌, arith, Bytes, ◌==◌, eq_iff, All,
  Bool-cases, inl, inr,
}
use drasl.Database.Laws.{UniqueBy}
use drasl.Database.Keys.{UniqueBy-snoc}
use drasl.Util.{contains, contains_public_key}

-- No text stands in the list twice.
abbrev pub IsUnique : List Bytes → Type 0
IsUnique = UniqueBy (λ (x : Bytes). x)

pub contains_public_key-contains :
    (xs : List Bytes) (y : Bytes) → contains_public_key xs y ≡ contains xs y
unfolding contains contains_public_key
contains_public_key-contains [] y = refl
contains_public_key-contains (x ∷ xs) y = ground (arith, contains_public_key-contains xs y)

pub contains-append :
    (xs : List Bytes) (x y : Bytes) → contains (xs ++ (x ∷ [])) y ≡ (contains xs y || x == y)
unfolding contains
contains-append [] x y = ground arith
contains-append (z ∷ xs) x y = ground (arith, contains-append xs x y)

contains-All : (xs : List Bytes) (y : Bytes) → contains xs y ≡ false → All (λ (x : Bytes). x ≢ y) xs
unfolding contains
contains-All [] y new = tt
contains-All (x ∷ xs) y new =
    let other : (x == y) ≡ false = ground arith in
    (λ e. cc (other, (eq_iff x y).1 e), contains-All xs y (ground arith))

-- Such a list stays without duplicates.
pub append-IsUnique :
    (xs : List Bytes) (y : Bytes) → IsUnique xs → contains xs y ≡ false → IsUnique (xs ++ (y ∷ []))
append-IsUnique xs y unique new =
    UniqueBy-snoc (λ (x : Bytes). x) xs y unique (contains-All xs y new)

-- A text that is contained is known by its contents.
pub contains_of_eq :
    (xs : List Bytes) (x y : Bytes)
    → contains xs x ≡ true
    → contains xs y ≡ (contains xs y || x == y)
contains_of_eq xs x y h = elim (Bool-cases (x == y)) [
  | inl same ↦
      let e : x ≡ y = (eq_iff x y).0 same in
      let there : contains xs y ≡ true = rw (← e) h in ground arith
  | inr other ↦ ground arith
]

-- What holds of each element holds of a text that is contained.
pub All-contains :
    (P : Bytes → Type 0) (xs : List Bytes) (y : Bytes) → All P xs → contains xs y ≡ true → P y
unfolding contains
All-contains P [] y ps h = absurd (cc h)
All-contains P (x ∷ xs) y (p, ps) h = elim (Bool-cases (x == y)) [
  | inl same ↦ subst P ((eq_iff x y).0 same) p
  | inr other ↦ All-contains P xs y ps (ground arith)
]
