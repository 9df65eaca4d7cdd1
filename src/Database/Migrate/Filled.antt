-- ===== src/Database/Migrate/Filled.antt =====
-- What a migrated database has.
use drasl.Prelude.{
  ℕ, ◌≡◌, ◌≢◌, ◌≤◌, refl, ap, ◌∙◌, inl, inr, ◌⊎◌, true, Option, none, some, List, [], ◌∷◌, map,
  arith, nat_eq, Bool-cases, Option-cases,
}
use drasl.Errors.{Error, ok, Result-cases}
use drasl.App.{App}
use drasl.Model.Types.{User}
use drasl.Model.Validate.{get_offline_uuid}
use drasl.Database.Tables.{Tables}
use drasl.Database.Migrate.{
  Store, Migrator, current_user_version, rename_token, fill_offline_uuids, migrate_0_to_1,
  migrate_1_to_2, step_0, step_1, migrate_steps, migrate,
}

-- The row of a user after the migration from version 0
abbrev pub IsFilled : App → User → User → Type 0
IsFilled app u v =
    (get_offline_uuid app u.player_name ≡ ok v.offline_uuid)
    × (v ≡ record u { offline_uuid = v.offline_uuid })

-- Two lists of rows in which every row meets the relation with the one at its place
abbrev pub Rows : {A : Type 0} → (A → A → Type 0) → List A → List A → Type 0
Rows R [] [] = Unit
Rows R (x ∷ xs) (y ∷ ys) = R x y × Rows R xs ys
Rows R [] (y ∷ ys) = ⊥
Rows R (x ∷ xs) [] = ⊥

fill_offline_uuids-Rows :
    (app : App) (m : Migrator) (users users' : List User)
    → fill_offline_uuids app m users ≡ ok users'
    → Rows (IsFilled app) users users'
unfolding fill_offline_uuids
fill_offline_uuids-Rows app m [] [] h = tt
fill_offline_uuids-Rows app m [] (v ∷ users') h = absurd (cc h)
fill_offline_uuids-Rows app m (u ∷ users) users' h =
    elim (Result-cases (get_offline_uuid app u.player_name)) [
      | inr (e, p) ↦ absurd (ground arith)
      | inl (offline, p) ↦ elim (Option-cases (m.update_offline_uuid u)) [
        | inr (e, q) ↦ absurd (ground arith)
        | inl q ↦ elim (Result-cases (fill_offline_uuids app m users)) [
          | inr (e, r) ↦ absurd (ground arith)
          | inl (rest, r) ↦
              let made : users' ≡ record u { offline_uuid = offline } ∷ rest = ground arith in
              rw made ((p, refl), fill_offline_uuids-Rows app m users rest r)
        ]
      ]
    ]

-- What the migration from a version does with the tables: the users of version 0 get their offline
-- UUIDs, the clients of versions 0 and 1 get their tokens, and nothing else changes.
pub record IsMigrated (app : App) (version : ℕ) (t t' : Tables) : Type 0 where
  pub users_lem :
      ((version ≡ 0) × Rows (IsFilled app) t.users t'.users)
      ⊎ ((1 ≤ version) × (t'.users ≡ t.users))
  pub clients_lem :
      ((version ≤ 1) × (t'.clients ≡ map rename_token t.clients))
      ⊎ ((2 ≤ version) × (t'.clients ≡ t.clients))
  pub invites_lem : t'.invites ≡ t.invites

migrate_0_to_1-inverse :
    (app : App) (m : Migrator) (t t' : Tables)
    → migrate_0_to_1 app m t ≡ ok t'
    → (users : List User) × Rows (IsFilled app) t.users users × (t' ≡ record t { users = users })
unfolding migrate_0_to_1
migrate_0_to_1-inverse app m t t' h = elim (Option-cases m.add_offline_uuid) [
  | inr (e, p) ↦ absurd (ground arith)
  | inl p ↦ elim (Option-cases m.find) [
    | inr (e, q) ↦ absurd (ground arith)
    | inl q ↦ elim (Result-cases (fill_offline_uuids app m t.users)) [
      | inr (e, r) ↦ absurd (ground arith)
      | inl (users, r) ↦ (users, fill_offline_uuids-Rows app m t.users users r, ground arith)
    ]
  ]
]

migrate_1_to_2-inverse :
    (m : Migrator) (t t' : Tables)
    → migrate_1_to_2 m t ≡ ok t'
    → t' ≡ record t { clients = map rename_token t.clients }
unfolding migrate_1_to_2
migrate_1_to_2-inverse m t t' h = ground arith

-- The version that a migrated database has: the current one, unless it was a newer one before.
abbrev pub IsCurrent : ℕ → ℕ → Type 0
IsCurrent version version' =
    ((version ≤ current_user_version) × (version' ≡ current_user_version))
    ⊎ ((current_user_version ≤ version) × (version' ≡ version))

step_0-inverse :
    (app : App) (m : Migrator) (s s' : Store)
    → step_0 app m s ≡ ok s'
    → (s'.tables.clients ≡ s.tables.clients)
      × (s'.tables.invites ≡ s.tables.invites)
      × (((s.user_version ≡ 0)
            × (s'.user_version ≡ 1)
            × Rows (IsFilled app) s.tables.users s'.tables.users)
          ⊎ ((1 ≤ s.user_version)
              × (s'.user_version ≡ s.user_version)
              × (s'.tables.users ≡ s.tables.users)))
step_0-inverse app m s s' h = elim (Bool-cases (nat_eq s.user_version 0)) [
  | inr n ↦ (ground arith, ground arith, inr (ground arith, ground arith, ground arith))
  | inl y ↦ elim (Result-cases (migrate_0_to_1 app m s.tables)) [
    | inr (e, p) ↦ absurd (ground arith)
    | inl (t, p) ↦
        let (users, rows, made) = migrate_0_to_1-inverse app m s.tables t p in
        let e : s' ≡ record { user_version = 1; tables = record s.tables { users = users } } =
          ground arith in
        rw e (refl, refl, inl (ground arith, refl, rows))
  ]
]

step_1-inverse :
    (m : Migrator) (s s' : Store)
    → step_1 m s ≡ ok s'
    → (s'.tables.users ≡ s.tables.users)
      × (s'.tables.invites ≡ s.tables.invites)
      × (((s.user_version ≡ 1)
            × (s'.user_version ≡ 2)
            × (s'.tables.clients ≡ map rename_token s.tables.clients))
          ⊎ ((s.user_version ≢ 1)
              × (s'.user_version ≡ s.user_version)
              × (s'.tables.clients ≡ s.tables.clients)))
step_1-inverse m s s' h = elim (Bool-cases (nat_eq s.user_version 1)) [
  | inr n ↦ (ground arith, ground arith, inr (ground arith, ground arith, ground arith))
  | inl y ↦ elim (Result-cases (migrate_1_to_2 m s.tables)) [
    | inr (e, p) ↦ absurd (ground arith)
    | inl (t, p) ↦
        let made = migrate_1_to_2-inverse m s.tables t p in
        (ground arith, ground arith, inl (ground arith, ground arith, ground arith))
  ]
]

steps-inverse :
    (app : App) (m : Migrator) (s s' : Store)
    → migrate_steps app m s ≡ ok s'
    → (s₁ : Store) × (step_0 app m s ≡ ok s₁) × (step_1 m s₁ ≡ ok s')
unfolding migrate_steps
steps-inverse app m s s' h = elim (Result-cases (step_0 app m s)) [
  | inr (e, p) ↦ absurd (ground arith)
  | inl (s₁, p) ↦ elim (Result-cases (step_1 m s₁)) [
    | inr (e, q) ↦ absurd (ground arith)
    | inl (s₂, q) ↦ (s₁, p, ground arith)
  ]
]

migrate_steps-IsMigrated :
    (app : App) (m : Migrator) (s s' : Store)
    → migrate_steps app m s ≡ ok s'
    → IsMigrated app s.user_version s.tables s'.tables × IsCurrent s.user_version s'.user_version
migrate_steps-IsMigrated app m s s' h =
    let (s₁, h₀, h₁) = steps-inverse app m s s' h in
    let (clients, invites, first) = step_0-inverse app m s s₁ h₀ in
    let (users, invites', second) = step_1-inverse m s₁ s' h₁ in
    elim first [
      | inl (old, version, rows) ↦ elim second [
        | inr (other, _, _) ↦ absurd (other version)
        | inl (_, now, renamed) ↦ (
          record {
            users_lem = inl (old, rw users rows);
            clients_lem = inl (omega arith, renamed ∙ ap (λ cs. map rename_token cs) clients);
            invites_lem = invites' ∙ invites;
          },
          inl (omega arith, now),
        )
      ]
      | inr (old, version, kept) ↦ elim second [
        | inl (one, now, renamed) ↦ (
          record {
            users_lem = inr (old, users ∙ kept);
            clients_lem = inl (omega arith, renamed ∙ ap (λ cs. map rename_token cs) clients);
            invites_lem = invites' ∙ invites;
          },
          inl (omega arith, now),
        )
        | inr (other, now, same) ↦
            let newer : 2 ≤ s.user_version = ground arith in
            (
              record {
                users_lem = inr (old, users ∙ kept);
                clients_lem = inr (newer, same ∙ clients);
                invites_lem = invites' ∙ invites;
              },
              inr (newer, now ∙ version),
            )
      ]
    ]

-- The migration of a database that was there before changes nothing, and has an error or could not
-- read the version; or it has no error and makes of each row what the versions ask for.
pub migrate-IsMigrated :
    (app : App) (m : Migrator) (s s' : Store) (failed : Option Error)
    → migrate app m true s ≡ (failed, s')
    → ((s' ≡ s) × ((e : Error) × ((failed ≡ some e) ⊎ (m.read_version ≡ some e))))
      ⊎ ((failed ≡ none)
          × IsMigrated app s.user_version s.tables s'.tables
          × IsCurrent s.user_version s'.user_version)
unfolding migrate
migrate-IsMigrated app m s s' failed h = elim (Option-cases m.read_version) [
  | inr (e, p) ↦ inl (ground arith, (e, inr p))
  | inl p ↦ elim (Result-cases (migrate_steps app m s)) [
    | inr (e, q) ↦ inl (ground arith, (e, inl (ground arith)))
    | inl (s₂, q) ↦ elim (Option-cases m.commit) [
      | inr (e, c) ↦ inl (ground arith, (e, inl (ground arith)))
      | inl c ↦
          let same : s₂ ≡ s' = ground arith in
          let (migrated, current) = migrate_steps-IsMigrated app m s s₂ q in
          inr (ground arith, rw (← same) migrated, rw (← same) current)
    ]
  ]
]
