-- ===== src/Front/Admin/Edited.antt =====
-- What an update of rights makes of the users.
use drasl.Prelude.{
  ◌≡◌, refl, subst, ◌⊎◌, ◌++◌, Bool, true, false, none, List, [], ◌∷◌, inl, inr, arith, Bytes, All,
  if◌then◌else◌,
}
use drasl.Errors.{ok, Result-cases}
use drasl.App.{App}
use drasl.Model.Types.{User}
use drasl.Database.Tables.{Tables, Database, Statement, save_user}
use drasl.Database.Laws.{In}
use drasl.Front.Admin.{
  set_is_locked, should_be_admin, should_be_locked, save_in_transaction, update_user, update_all,
}

-- A user with the rights that the form gives; one that is locked loses its session.
abbrev pub edited : App → (Bytes → Bytes) → User → User
edited app form u = record u {
  is_admin = should_be_admin app form u;
  is_locked = should_be_locked form u;
  browser_token = if should_be_locked form u then none else u.browser_token;
}

pub set_is_locked_lem :
    (db : Database) (u : User) (locked : Bool) (t : Tables)
    → (set_is_locked db u locked t).0
      ≡ record u { is_locked = locked; browser_token = if locked then none else u.browser_token }
unfolding set_is_locked
set_is_locked_lem db u true t = refl
set_is_locked_lem db u false t = refl

All-snoc :
    {A : Type 0} (P : A → Type 0) (xs : List A) (x : A) → All P xs → P x → All P (xs ++ (x ∷ []))
All-snoc P [] x ps p = (p, tt)
All-snoc P (y ∷ xs) x (q, ps) p = (q, All-snoc P xs x ps p)

module _ (app : App) (db : Database) (form : Bytes → Bytes) (before : List User) where
  -- A statement that saves an edited user.
  abbrev pub Saves : Statement → Type 0
  Saves s = (u : User) × In u before × (s ≡ save_user (edited app form u))

  -- A user from before, or an edited one
  abbrev IsKnown : User → Type 0
  IsKnown v = In v before ⊎ ((u : User) × In u before × (v ≡ edited app form u))

  pub update_user_lem :
      (user : User) (pending pending' : List Statement) (t : Tables)
      → (update_user app db form user pending t).0 ≡ ok pending'
      → (pending' ≡ pending) ⊎ (pending' ≡ pending ++ (save_user (edited app form user) ∷ []))
  unfolding update_user save_in_transaction
  update_user_lem user pending pending' t h =
      let e =
        set_is_locked_lem db (record user { is_admin = should_be_admin app form user })
          (should_be_locked form user) t in
      ground arith

  pub update_user-Saves :
      (user : User) (pending pending' : List Statement) (t : Tables)
      → In user before
      → All Saves pending
      → (update_user app db form user pending t).0 ≡ ok pending'
      → All Saves pending'
  update_user-Saves user pending pending' t m saves h =
      elim (update_user_lem user pending pending' t h) [
        | inl same ↦ rw same saves
        | inr more ↦
            rw more
              (All-snoc Saves pending (save_user (edited app form user)) saves (user, m, refl))
      ]

  pub update_all-Saves :
      (users : List User) (pending pending' : List Statement) (t : Tables)
      → ((u : User) → In u users → In u before)
      → All Saves pending
      → (update_all app db form users pending t).0 ≡ ok pending'
      → All Saves pending'
  unfolding update_all
  update_all-Saves [] pending pending' t known saves h =
      let same : pending ≡ pending' = cc in subst (All Saves) same saves
  update_all-Saves (user ∷ users) pending pending' t known saves h =
      elim (Result-cases (update_user app db form user pending t).0) [
        | inr (e, p) ↦ absurd (ground arith)
        | inl (more, p) ↦
            update_all-Saves users more pending' (update_user app db form user pending t).1
              (λ u m. known u (inr m))
              (update_user-Saves user pending more t (known user (inl refl)) saves p) (ground arith)
      ]
