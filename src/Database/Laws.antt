-- ===== src/Database/Laws.antt =====
-- What the program relies on: the documented meaning of the queries and statements.
use drasl.Prelude.{
  ℕ, length, ◌≡◌, ◌≢◌, ◌⊎◌, Bool, true, false, none, some, List, [], ◌∷◌, Bytes, ◌==◌, keep, any,
  All,
}
use drasl.Errors.{Error, record_not_found, ok, err}
use drasl.Model.Types.{User, Client, Invite, zero_user}
use drasl.Database.Tables.{
  Tables, UserCond, by_uuid, matches, column_is, nocase, Statement, apply, apply_all, Database,
}

-- A row stands in a table.
abbrev pub In : {A : Type 0} → A → List A → Type 0
In x [] = ⊥
In x (y ∷ ys) = (x ≡ y) ⊎ In x ys

-- No two rows have the same key.
abbrev pub UniqueBy : {A : Type 0} → (A → Bytes) → List A → Type 0
UniqueBy key [] = Unit
UniqueBy key (x ∷ xs) = All (λ y. key y ≢ key x) xs × UniqueBy key xs

-- The primary keys and the unique columns; player names are compared without case.
pub record HasUniqueKeys (t : Tables) : Type 0 where
  pub user_uuids : UniqueBy (λ (u : User). u.uuid) t.users
  pub usernames : UniqueBy (λ (u : User). u.username) t.users
  pub player_names : UniqueBy (λ (u : User). nocase u.player_name) t.users
  pub client_uuids : UniqueBy (λ (c : Client). c.uuid) t.clients
  pub invite_codes : UniqueBy (λ (i : Invite). i.code) t.invites

-- What `Preload("User")` gives with a client: its user, or an empty record if there is none.
abbrev pub IsUserOf : Client → User → Tables → Type 0
IsUserOf c u t =
    (In u t.users × (c.user_uuid ≡ u.uuid))
    ⊎ ((u ≡ zero_user) × (any (matches (by_uuid c.user_uuid)) t.users ≡ false))

pub record IsLawful (d : Database) : Type 0 where
  -- `First` gives a row that meets the condition.
  pub first_user-ok :
      (c : UserCond) (t : Tables) (u : User)
      → d.first_user c t ≡ ok u
      → In u t.users × (matches c u ≡ true)
  pub first_user-not_found :
      (c : UserCond) (t : Tables)
      → d.first_user c t ≡ err record_not_found
      → any (matches c) t.users ≡ false
  pub first_client-ok :
      (uuid : Bytes) (t : Tables) (c : Client) (u : User)
      → d.first_client uuid t ≡ ok (c, u)
      → In c t.clients × (c.uuid ≡ uuid) × IsUserOf c u t
  pub first_invite-ok :
      (code : Bytes) (t : Tables) (i : Invite)
      → d.first_invite code t ≡ ok i
      → In i t.invites × (i.code ≡ code)
  pub find_users-ok : (t : Tables) (users : List User) → d.find_users t ≡ ok users → users ≡ t.users
  pub find_invites-ok :
      (t : Tables) (invites : List Invite) → d.find_invites t ≡ ok invites → invites ≡ t.invites
  pub count_users-ok : (t : Tables) (n : ℕ) → d.count_users t ≡ ok n → n ≡ length t.users
  pub any_invite-ok : (t : Tables) (i : Invite) → d.any_invite t ≡ ok i → In i t.invites
  pub clients_of-lem :
      (u : User) (t : Tables) → d.clients_of u t ≡ keep (λ c. c.user_uuid == u.uuid) t.clients
  pub skin_in_use-ok :
      (hash : Bytes) (t : Tables) (b : Bool)
      → d.skin_in_use hash t ≡ ok b
      → any (λ u. column_is u.skin_hash hash) t.users ≡ b
  pub cape_in_use-ok :
      (hash : Bytes) (t : Tables) (b : Bool)
      → d.cape_in_use hash t ≡ ok b
      → any (λ u. column_is u.cape_hash hash) t.users ≡ b
  -- A statement that succeeds has the effect of its SQL, and one that fails has none.
  pub exec-ok : (s : Statement) (t : Tables) → (d.exec s t).0 ≡ none → (d.exec s t).1 ≡ apply s t
  pub exec-failed :
      (s : Statement) (t : Tables) (e : Error) → (d.exec s t).0 ≡ some e → (d.exec s t).1 ≡ t
  -- A statement that succeeds has kept the constraints.
  pub exec-HasUniqueKeys :
      (s : Statement) (t : Tables)
      → HasUniqueKeys t
      → (d.exec s t).0 ≡ none
      → HasUniqueKeys (d.exec s t).1
  pub commit-ok :
      (pending : List Statement) (t : Tables)
      → (d.commit pending t).0 ≡ none
      → (d.commit pending t).1 ≡ apply_all pending t
  pub commit-failed :
      (pending : List Statement) (t : Tables) (e : Error)
      → (d.commit pending t).0 ≡ some e
      → (d.commit pending t).1 ≡ t
  pub commit-HasUniqueKeys :
      (pending : List Statement) (t : Tables)
      → HasUniqueKeys t
      → (d.commit pending t).0 ≡ none
      → HasUniqueKeys (d.commit pending t).1

-- A client that is stored is found, with some user: the database answers.
pub record Answers (d : Database) : Type 0 where
  pub first_client_answers :
      (t : Tables) (c : Client)
      → In c t.clients
      → (c' : Client) × (u : User) × (d.first_client c.uuid t ≡ ok (c', u))

-- A condition that a stored user meets finds some user: the database answers.
pub record Finds (d : Database) : Type 0 where
  pub first_user_finds :
      (c : UserCond) (t : Tables) (u : User)
      → In u t.users
      → matches c u ≡ true
      → (u' : User) × (d.first_user c t ≡ ok u')
