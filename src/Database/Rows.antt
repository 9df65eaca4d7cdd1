-- ===== src/Database/Rows.antt =====
-- Rows of a table before and after a statement.
use drasl.Prelude.{
  ◌≡◌, ◌≢◌, refl, sym, ap, subst, ◌∙◌, ◌⊎◌, inl, inr, List, [], ◌∷◌, map, Bytes, ◌==◌, eq_iff, All,
  Bool-cases,
}
use drasl.Model.Types.{Client}
use drasl.Database.Tables.{put_client, put_clients, bump}
use drasl.Database.Laws.{In, UniqueBy}

pub All-In : {A : Type 0} (P : A → Type 0) (x : A) (xs : List A) → All P xs → In x xs → P x
All-In P x [] _ m = absurd m
All-In P x (y ∷ xs) (p, _) (inl e) = subst P (sym e) p
All-In P x (y ∷ xs) (_, ps) (inr m) = All-In P x xs ps m

pub In-All : {A : Type 0} (P : A → Type 0) (xs : List A) → ((x : A) → In x xs → P x) → All P xs
In-All P [] h = tt
In-All P (x ∷ xs) h = (h x (inl refl), In-All P xs (λ y m. h y (inr m)))

-- A key finds one row.
pub UniqueBy-In :
    {A : Type 0} (key : A → Bytes) (a b : A) (xs : List A)
    → UniqueBy key xs
    → In a xs
    → In b xs
    → key a ≡ key b
    → a ≡ b
UniqueBy-In key a b [] u m n e = absurd m
UniqueBy-In key a b (x ∷ xs) (u, us) (inl p) (inl q) e = p ∙ sym q
UniqueBy-In key a b (x ∷ xs) (u, us) (inl p) (inr n) e =
    absurd (All-In (λ y. key y ≢ key x) b xs u n (sym e ∙ ap key p))
UniqueBy-In key a b (x ∷ xs) (u, us) (inr m) (inl q) e =
    absurd (All-In (λ y. key y ≢ key x) a xs u m (e ∙ ap key q))
UniqueBy-In key a b (x ∷ xs) (u, us) (inr m) (inr n) e = UniqueBy-In key a b xs us m n e

-- A row after `put_client` is the one that was put, or was there before under another key.
pub In-put_client :
    (c d : Client) (clients : List Client)
    → UniqueBy (λ (x : Client). x.uuid) clients
    → In d (put_client c clients)
    → (d ≡ c) ⊎ ((d.uuid ≢ c.uuid) × In d clients)
unfolding put_client
In-put_client c d [] u (inl e) = inl e
In-put_client c d [] u (inr m) = absurd m
In-put_client c d (x ∷ clients) (u, us) m = elim (Bool-cases (x.uuid == c.uuid)) [
  | inl same ↦
      let m' : (d ≡ c) ⊎ In d clients = rw same at m in
      elim m' [
        | inl e ↦ inl e
        | inr n ↦
            let k : x.uuid ≡ c.uuid = (eq_iff x.uuid c.uuid).0 same in
            inr (λ e. All-In (λ y. y.uuid ≢ x.uuid) d clients u n (e ∙ sym k), inr n)
      ]
  | inr other ↦
      let m' : (d ≡ x) ⊎ In d (put_client c clients) = rw other at m in
      elim m' [
        | inl e ↦ inr (
          λ p. cc (other, (eq_iff x.uuid c.uuid).1 (ap (λ (y : Client). y.uuid) (sym e) ∙ p)),
          inl e,
        )
        | inr n ↦ elim (In-put_client c d clients us n) [
          | inl e ↦ inl e
          | inr (ne, k) ↦ inr (ne, inr k)
        ]
      ]
]

-- A row after `increment_versions` is a row from before with the effect on it.
pub In-bump :
    (user_uuid : Bytes) (d : Client) (clients : List Client)
    → In d (map (bump user_uuid) clients)
    → (c : Client) × In c clients × (d ≡ bump user_uuid c)
In-bump user_uuid d [] m = absurd m
In-bump user_uuid d (c ∷ clients) (inl e) = (c, inl refl, e)
In-bump user_uuid d (c ∷ clients) (inr m) =
    let (c', n, e) = In-bump user_uuid d clients m in (c', inr n, e)

pub In-put_client_self : (c : Client) (clients : List Client) → In c (put_client c clients)
unfolding put_client
In-put_client_self c [] = inl refl
In-put_client_self c (x ∷ clients) = elim (Bool-cases (x.uuid == c.uuid)) [
  | inl same ↦ rw same (inl refl)
  | inr other ↦ rw other (inr (In-put_client_self c clients))
]

-- A row of another key stays.
In-put_client_ne :
    (c d : Client) (clients : List Client)
    → d.uuid ≢ c.uuid
    → In d clients
    → In d (put_client c clients)
unfolding put_client
In-put_client_ne c d [] ne m = absurd m
In-put_client_ne c d (x ∷ clients) ne (inl e) = elim (Bool-cases (x.uuid == c.uuid)) [
  | inl same ↦ absurd (ne (ap (λ (y : Client). y.uuid) e ∙ (eq_iff x.uuid c.uuid).0 same))
  | inr other ↦ rw other (inl e)
]
In-put_client_ne c d (x ∷ clients) ne (inr m) = elim (Bool-cases (x.uuid == c.uuid)) [
  | inl same ↦ rw same (inr m)
  | inr other ↦ rw other (inr (In-put_client_ne c d clients ne m))
]

In-put_clients_ne :
    (cs clients : List Client) (d : Client)
    → All (λ c. c.uuid ≢ d.uuid) cs
    → In d clients
    → In d (put_clients cs clients)
unfolding put_clients
In-put_clients_ne [] clients d ne m = m
In-put_clients_ne (c ∷ cs) clients d (ne, nes) m =
    In-put_clients_ne cs (put_client c clients) d nes
      (In-put_client_ne c d clients (λ e. ne (sym e)) m)

-- Every client that is saved is stored afterwards.
pub In-put_clients :
    (cs clients : List Client) (d : Client)
    → UniqueBy (λ (c : Client). c.uuid) cs
    → In d cs
    → In d (put_clients cs clients)
unfolding put_clients
In-put_clients [] clients d u m = absurd m
In-put_clients (c ∷ cs) clients d (u, us) (inl e) =
    rw e (In-put_clients_ne cs (put_client c clients) c u (In-put_client_self c clients))
In-put_clients (c ∷ cs) clients d (u, us) (inr m) = In-put_clients cs (put_client c clients) d us m
