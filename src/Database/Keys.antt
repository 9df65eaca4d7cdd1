-- ===== src/Database/Keys.antt =====
-- Keys stay distinct when rows are filtered and when a new row is added.
use drasl.Prelude.{
  ◌≢◌, refl, sym, inl, inr, Bool, List, [], ◌∷◌, ◌++◌, Bytes, keep, All, Bool-cases,
}
use drasl.Database.Laws.{In, UniqueBy}

module _ {A : Type 0} where
  pub All-keep : (P : A → Type 0) (p : A → Bool) (xs : List A) → All P xs → All P (keep p xs)
  All-keep P p [] h = tt
  All-keep P p (x ∷ xs) (h, hs) = elim (Bool-cases (p x)) [
    | inl e ↦ rw e (h, All-keep P p xs hs)
    | inr e ↦ rw e (All-keep P p xs hs)
  ]

  pub UniqueBy-keep :
      (key : A → Bytes) (p : A → Bool) (xs : List A) → UniqueBy key xs → UniqueBy key (keep p xs)
  UniqueBy-keep key p [] u = tt
  UniqueBy-keep key p (x ∷ xs) (u, us) = elim (Bool-cases (p x)) [
    | inl e ↦ rw e (All-keep (λ y. key y ≢ key x) p xs u, UniqueBy-keep key p xs us)
    | inr e ↦ rw e (UniqueBy-keep key p xs us)
  ]

  All-snoc : (P : A → Type 0) (xs : List A) (x : A) → All P xs → P x → All P (xs ++ (x ∷ []))
  All-snoc P [] x h hx = (hx, tt)
  All-snoc P (y ∷ xs) x (h, hs) hx = (h, All-snoc P xs x hs hx)

  pub UniqueBy-snoc :
      (key : A → Bytes) (xs : List A) (x : A)
      → UniqueBy key xs
      → All (λ y. key y ≢ key x) xs
      → UniqueBy key (xs ++ (x ∷ []))
  UniqueBy-snoc key [] x u f = (tt, tt)
  UniqueBy-snoc key (y ∷ xs) x (u, us) (f, fs) =
      (All-snoc (λ z. key z ≢ key y) xs x u (λ e. f (sym e)), UniqueBy-snoc key xs x us fs)

  pub In-snoc : (xs : List A) (x : A) → In x (xs ++ (x ∷ []))
  In-snoc [] x = inl refl
  In-snoc (y ∷ xs) x = inr (In-snoc xs x)
