-- ===== src/Database/Memory.antt =====
-- A database in memory, which meets the laws: every query answers, and a statement fails only if it
-- would break a constraint.
use drasl.Prelude.{
  ◌≡◌, ◌≢◌, refl, sym, Bool, true, false, not, ◌&&◌, Option, none, some, List, [], ◌∷◌, inl, inr,
  arith, Bytes, codes, ◌==◌, eq_iff, length, find, any, keep, All, Bool-cases, Option-cases,
  if◌then◌else◌,
}
use drasl.Errors.{Error, record_not_found, unique_failed, Result, ok, err}
use drasl.Model.Types.{User, Client, Invite, zero_user}
use drasl.Database.Tables.{
  Tables, by_uuid, matches, column_is, nocase, Statement, apply, apply_all, Database,
}
use drasl.Database.Laws.{In, UniqueBy, HasUniqueKeys, IsLawful, Answers, Finds, IsUserOf}

unfoldable pub unique_by : {A : Type 0} → (A → Bytes) → List A → Bool
unique_by key [] = true
unique_by key (x ∷ xs) = not (any (λ y. key y == key x) xs) && unique_by key xs

unfoldable pub keys_unique : Tables → Bool
unfolding unique_by
keys_unique t =
    unique_by (λ (u : User). u.uuid) t.users
    && (unique_by (λ (u : User). u.username) t.users
        && (unique_by (λ (u : User). nocase u.player_name) t.users
            && (unique_by (λ (c : Client). c.uuid) t.clients
                && unique_by (λ (i : Invite). i.code) t.invites)))

abbrev or_not_found {ℓ} : {A : Type ℓ} → Option A → Result A
or_not_found none = err record_not_found
or_not_found (some a) = ok a

abbrev user_of : Client → Tables → User
user_of c t = elim (find (matches (by_uuid c.user_uuid)) t.users) [ none ↦ zero_user | some u ↦ u ]

abbrev with_user : Tables → Option Client → Result (Client × User)
with_user t none = err record_not_found
with_user t (some c) = ok (c, user_of c t)

execute : Statement → Tables → Option Error × Tables
execute s t =
    if keys_unique (apply s t)
    then (none, apply s t)
    else (some (unique_failed (codes "users.username")), t)

commit : List Statement → Tables → Option Error × Tables
commit pending t =
    if keys_unique (apply_all pending t)
    then (none, apply_all pending t)
    else (some (unique_failed (codes "users.username")), t)

-- The constraint that a new row breaks.
broken : Tables → Option Error
broken t =
    if not (unique_by (λ (u : User). u.username) t.users)
    then some (unique_failed (codes "users.username"))
    else if not (unique_by (λ (u : User). nocase u.player_name) t.users)
    then some (unique_failed (codes "users.player_name"))
    else if not (unique_by (λ (u : User). u.uuid) t.users)
    then some (unique_failed (codes "users.uuid"))
    else none

unfoldable pub memory : Database
unfolding execute commit broken unique_by
memory = record {
  first_user = λ c t. or_not_found (find (matches c) t.users);
  first_client = λ uuid t. with_user t (find (λ c. c.uuid == uuid) t.clients);
  clients_of = λ u t. keep (λ c. c.user_uuid == u.uuid) t.clients;
  first_invite = λ code t. or_not_found (find (λ i. i.code == code) t.invites);
  find_users = λ t. ok t.users;
  find_invites = λ t. ok t.invites;
  count_users = λ t. ok (length t.users);
  any_invite = λ t. or_not_found (find (λ _. true) t.invites);
  skin_in_use = λ hash t. ok (any (λ u. column_is u.skin_hash hash) t.users);
  cape_in_use = λ hash t. ok (any (λ u. column_is u.cape_hash hash) t.users);
  exec = execute;
  tx_exec = λ s pending t. broken (apply s (apply_all pending t));
  commit = commit;
}

module _ {A : Type 0} where
  find-some : (p : A → Bool) (xs : List A) (x : A) → find p xs ≡ some x → In x xs × (p x ≡ true)
  find-some p [] x h = cc
  find-some p (y ∷ xs) x h = elim (Bool-cases (p y)) [
    | inl e ↦
        let h' : some y ≡ some x = rw e at h in let k : y ≡ x = cc in (inl (sym k), rw (← k) e)
    | inr e ↦ let (m, q) = find-some p xs x (rw e at h) in (inr m, q)
  ]

  find-none : (p : A → Bool) (xs : List A) → find p xs ≡ none → any p xs ≡ false
  find-none p [] h = refl
  find-none p (y ∷ xs) h = elim (Bool-cases (p y)) [
    | inl e ↦ let h' : some y ≡ none = rw e at h in cc
    | inr e ↦ rw e (find-none p xs (rw e at h))
  ]

  find-In :
      (p : A → Bool) (xs : List A) (x : A) → In x xs → p x ≡ true → (y : A) × (find p xs ≡ some y)
  find-In p [] x m h = absurd m
  find-In p (y ∷ xs) x m h = elim (Bool-cases (p y)) [
    | inl e ↦ (y, rw e)
    | inr e ↦ elim m [
      | inl k ↦ let q : p y ≡ true = rw (← k) h in cc
      | inr n ↦ let (z, q) = find-In p xs x n h in (z, rw e q)
    ]
  ]

  any-false :
      (key : A → Bytes) (k : Bytes) (xs : List A)
      → any (λ y. key y == k) xs ≡ false
      → All (λ y. key y ≢ k) xs
  any-false key k [] h = tt
  any-false key k (y ∷ xs) h = elim (Bool-cases (key y == k)) [
    | inl e ↦ let h' : true ≡ false = rw e at h in cc
    | inr e ↦ (λ q. cc (e, (eq_iff (key y) k).1 q), any-false key k xs (rw e at h))
  ]

  UniqueBy-unique_by : (key : A → Bytes) (xs : List A) → unique_by key xs ≡ true → UniqueBy key xs
  unfolding unique_by
  UniqueBy-unique_by key [] h = tt
  UniqueBy-unique_by key (x ∷ xs) h =
      (any-false key (key x) xs (ground arith), UniqueBy-unique_by key xs (ground arith))

pub HasUniqueKeys-keys_unique : (t : Tables) → keys_unique t ≡ true → HasUniqueKeys t
unfolding keys_unique
HasUniqueKeys-keys_unique t h = record {
  user_uuids = UniqueBy-unique_by _ t.users (ground arith);
  usernames = UniqueBy-unique_by _ t.users (ground arith);
  player_names = UniqueBy-unique_by _ t.users (ground arith);
  client_uuids = UniqueBy-unique_by _ t.clients (ground arith);
  invite_codes = UniqueBy-unique_by _ t.invites (ground arith);
}

found-ok :
    {A : Type 0} (p : A → Bool) (xs : List A) (x : A)
    → or_not_found (find p xs) ≡ ok x
    → In x xs × (p x ≡ true)
found-ok p xs x h = find-some p xs x (ground arith)

with_user-ok :
    (uuid : Bytes) (t : Tables) (c : Client) (u : User)
    → with_user t (find (λ c. c.uuid == uuid) t.clients) ≡ ok (c, u)
    → In c t.clients × (c.uuid ≡ uuid) × IsUserOf c u t
with_user-ok uuid t c u h = elim (Option-cases (find (λ c. c.uuid == uuid) t.clients)) [
  | inl e ↦ let h' : with_user t none ≡ ok (c, u) = rw e at h in cc
  | inr (c', e) ↦
      let h' : with_user t (some c') ≡ ok (c, u) = rw e at h in
      let k : c' ≡ c = cc in
      let (m, q) = find-some (λ c. c.uuid == uuid) t.clients c' e in
      let v : user_of c t ≡ u = cc in
      (rw (← k) m, rw (← k) ((eq_iff c'.uuid uuid).0 q), rw (← v) (own_user c t))
]
  where
    own_user : (c : Client) (t : Tables) → IsUserOf c (user_of c t) t
    own_user c t = elim (Option-cases (find (matches (by_uuid c.user_uuid)) t.users)) [
      | inl e ↦ rw (e, user_of) (inr (refl, find-none (matches (by_uuid c.user_uuid)) t.users e))
      | inr (u, e) ↦
          let (m, q) = find-some (matches (by_uuid c.user_uuid)) t.users u e in
          rw (e, user_of) (inl (m, sym ((eq_iff u.uuid c.user_uuid).0 q)))
    ]

-- The laws hold of the database in memory.
pub memory-IsLawful : IsLawful memory
unfolding memory
memory-IsLawful = record {
  first_user-ok = λ c t u h. found-ok (matches c) t.users u h;
  first_user-not_found = λ c t h. find-none (matches c) t.users (ground arith);
  first_client-ok = with_user-ok;
  first_invite-ok = λ code t i h.
      let (m, q) = found-ok (λ (i : Invite). i.code == code) t.invites i h in
      (m, (eq_iff i.code code).0 q);
  find_users-ok = λ t users h. ground arith;
  find_invites-ok = λ t invites h. ground arith;
  count_users-ok = λ t n h. ground arith;
  any_invite-ok = λ t i h. (found-ok (λ _. true) t.invites i h).0;
  clients_of-lem = λ u t. refl;
  skin_in_use-ok = λ hash t b h. ground arith;
  cape_in_use-ok = λ hash t b h. ground arith;
  exec-ok = λ s t h. ground arith;
  exec-failed = λ s t e h. ground arith;
  exec-HasUniqueKeys = λ s t u h. elim (Bool-cases (keys_unique (apply s t))) [
    | inl e ↦ rw e (HasUniqueKeys-keys_unique (apply s t) e)
    | inr e ↦ rw e u
  ];
  commit-ok = λ pending t h. ground arith;
  commit-failed = λ pending t e h. ground arith;
  commit-HasUniqueKeys = λ pending t u h. elim (Bool-cases (keys_unique (apply_all pending t))) [
    | inl e ↦ rw e (HasUniqueKeys-keys_unique (apply_all pending t) e)
    | inr e ↦ rw e u
  ];
}

pub memory-Answers : Answers memory
unfolding memory
memory-Answers = record {
  first_client_answers = λ t c m.
      let (c', e) =
        find-In (λ (d : Client). d.uuid == c.uuid) t.clients c m ((eq_iff c.uuid c.uuid).1 refl) in
      (c', user_of c' t, rw e);
}

pub memory-Finds : Finds memory
unfolding memory
memory-Finds = record {
  first_user_finds =
      λ c t u m h. let (u', e) = find-In (matches c) t.users u m h in (u', rw e refl);
}
