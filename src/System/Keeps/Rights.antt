-- ===== src/System/Keeps/Rights.antt =====
-- Invites and rights, as handlers of System/Keeps.
use drasl.Prelude.{
  ◌≡◌, ◌∙◌, ap, sym, subst, All, ◌&&◌, Bool, true, false, not, List, [], ◌∷◌, Bytes, Bool-cases,
  Option-cases, inl, inr,
}
use drasl.Errors.{text, Result, ok, err, Result-cases}
use drasl.App.{App, Env, random_base62}
use drasl.Model.Types.{User, Invite}
use drasl.Database.Tables.{
  Tables, Database, Statement, create_invite, delete_invite, increment_versions,
}
use drasl.Front.Types.{Site, try, Visit, redirect, success_message, call}
use drasl.Front.Access.{get_return_url}
use drasl.Front.Admin.{
  front_delete_invite, after_invite, make_invite, front_new_invite, work, set_is_locked,
  update_user, update_all, update_users, front_update_users, any_unlocked_admins, bool_eq,
  should_be_admin, should_be_locked,
}
use drasl.Flow.{Flow, next}
use drasl.Front.Admin.Edited.{Saves, update_all-Saves}
use drasl.System.Keeps.{
  IsKept, SavesNoClient, bind_given-Keeps, Keeps, bind-Keeps, pure-Keeps, gets-Keeps, if-Keeps,
}
use drasl.System.Keeps.Front.{
  On, try-Keeps, set_cookie-Keeps, refuse-Keeps, check-Keeps, call-Keeps, with_browser_admin-Keeps,
}

next-injective : {R A : Type 0} {a b : A} → ◌≡◌ {A = Flow R A} (next a) (next b) → a ≡ b
next-injective h = cc h

tried-ok : {A : Type 0} (r : Result A) (a : A) (s : Site) → (try r s).0 ≡ next a → r ≡ ok a
tried-ok (ok b) a s h = ap ok (next-injective h)
tried-ok (err e) a s h = absurd (cc h)

module _ (db : Database) (P : Tables → Type 0) (kept : IsKept db P) where
  pub front_delete_invite-Keeps :
      (app : App) (return_url : Bytes) (visit : Visit) (code : Bytes)
      → Keeps (On db P kept) (front_delete_invite app db return_url visit code)
  unfolding front_delete_invite
  front_delete_invite-Keeps app return_url visit code =
      with_browser_admin-Keeps db P kept app visit _ λ user.
        bind-Keeps (On db P kept) _ _ (call-Keeps db P kept (delete_invite code) tt)
          λ failed_delete.
            bind-Keeps (On db P kept) _ _ (check-Keeps db P kept failed_delete)
              λ _. pure-Keeps (On db P kept) (redirect return_url)

  make_invite_keeps : (app : App) (env : Env) (t : Tables) → P t → P (make_invite app env db t).1
  unfolding make_invite
  make_invite_keeps app env t p = elim (Result-cases (random_base62 app env 8)) [
    | inr (e, q) ↦ rw (make_invite, q) p
    | inl (code, q) ↦
        let invite : Invite = record { code = code; created_at = env.now } in
        let after = kept.exec_keeps (create_invite invite) tt t p in
        elim (Option-cases (db.exec (create_invite invite) t).0) [
          | inl e ↦ rw (make_invite, q, e) after
          | inr (f, e) ↦ rw (make_invite, q, e) after
        ]
  ]

  work-Keeps :
      {A : Type 0} (f : Tables → Result A × Tables)
      → ((t : Tables) → P t → P (f t).1)
      → Keeps (On db P kept) (work f)
  work-Keeps f keeps = record { keep = λ s p. keeps s.tables p }

  invited-Keeps :
      (app : App) (visit : Visit) (created : Result Invite)
      → Keeps (On db P kept) (after_invite app visit created)
  invited-Keeps app visit (ok i) = pure-Keeps (On db P kept) (redirect (get_return_url app visit))
  invited-Keeps app visit (err e) =
      refuse-Keeps db P kept (text "Error creating new invite.") (get_return_url app visit)

  pub front_new_invite-Keeps :
      (app : App) (env : Env) (visit : Visit)
      → Keeps (On db P kept) (front_new_invite app env db visit)
  unfolding front_new_invite
  front_new_invite-Keeps app env visit = with_browser_admin-Keeps db P kept app visit _ λ user.
      bind-Keeps (On db P kept) _ _
        (work-Keeps (make_invite app env db) (make_invite_keeps app env)) (invited-Keeps app visit)

  set_is_locked_keeps :
      (user : User) (locked : Bool) (t : Tables) → P t → P (set_is_locked db user locked t).2
  unfolding set_is_locked
  set_is_locked_keeps user false t p = p
  set_is_locked_keeps user true t p = kept.exec_keeps (increment_versions user.uuid) tt t p

  update_user_keeps :
      (app : App) (form : Bytes → Bytes) (user : User) (pending : List Statement) (t : Tables)
      → P t
      → P (update_user app db form user pending t).1
  unfolding update_user
  update_user_keeps app form user pending t p =
      elim (Bool-cases (
        bool_eq user.is_admin (should_be_admin app form user)
        && bool_eq user.is_locked (should_be_locked form user))) [
          | inl same ↦ rw (update_user, same) p
          | inr other ↦
              let user' : User = record user { is_admin = should_be_admin app form user } in
              let after = set_is_locked_keeps user' (should_be_locked form user) t p in
              elim (Option-cases (set_is_locked db user' (should_be_locked form user) t).1) [
                | inl e ↦ rw (update_user, other, e) after
                | inr (f, e) ↦ rw (update_user, other, e) after
              ]
        ]

  update_all_keeps :
      (app : App) (form : Bytes → Bytes) (users : List User) (pending : List Statement) (t : Tables)
      → P t
      → P (update_all app db form users pending t).1
  unfolding update_all
  update_all_keeps app form [] pending t p = p
  update_all_keeps app form (user ∷ users) pending t p =
      let after = update_user_keeps app form user pending t p in
      elim (Result-cases (update_user app db form user pending t).0) [
        | inr (e, q) ↦ rw (update_all, q) after
        | inl (pending', q) ↦
            rw (update_all, q)
              (update_all_keeps app form users pending' (update_user app db form user pending t).1
                after)
      ]

  pub commit-Keeps :
      (pending : List Statement)
      → All SavesNoClient pending
      → Keeps (On db P kept) (call (db.commit pending))
  commit-Keeps pending no_client = record {
    keep = λ s p. kept.commit_keeps pending no_client s.tables p;
  }

  All-Saves :
      (app : App) (form : Bytes → Bytes) (before : List User) (pending : List Statement)
      → All (Saves app db form before) pending
      → All SavesNoClient pending
  All-Saves app form before [] saves = tt
  All-Saves app form before (s ∷ pending) ((u, m, e), saves) =
      (subst SavesNoClient (sym e) tt, All-Saves app form before pending saves)

  -- The transaction of an update of rights has saves of users only.
  update_all-SavesNoClient :
      (app : App) (form : Bytes → Bytes) (users : List User) (t : Tables) (pending : List Statement)
      → (update_all app db form users [] t).0 ≡ ok pending
      → All SavesNoClient pending
  update_all-SavesNoClient app form users t pending h =
      All-Saves app form users pending
        (update_all-Saves app db form users users [] pending t (λ u m. m) tt h)

  update_users-Keeps :
      (app : App) (visit : Visit) (form : Bytes → Bytes)
      → Keeps (On db P kept) (update_users app db visit form)
  unfolding update_users
  update_users-Keeps app visit form =
      let url = get_return_url app visit in
      bind-Keeps (On db P kept) _ _ (gets-Keeps (On db P kept) (λ s. db.find_users s.tables))
        λ found. bind-Keeps (On db P kept) _ _ (try-Keeps db P kept found) λ users.
          bind_given-Keeps (On db P kept) _ _
            (work-Keeps (update_all app db form users []) (update_all_keeps app form users []))
            λ updated s _ made.
              bind_given-Keeps (On db P kept) _ _ (try-Keeps db P kept updated)
                λ pending s' _ tried.
                  let worked : updated ≡ ok pending = tried-ok updated pending s' tried in
                  let whole : (update_all app db form users [] s.tables).0 ≡ ok pending =
                    next-injective made ∙ worked in
                  if-Keeps (On db P kept) (not (any_unlocked_admins app form users)) _ _
                    (refuse-Keeps db P kept
                      (text "There must be at least one unlocked admin account.") url)
                    (bind-Keeps (On db P kept) _ _
                      (commit-Keeps pending
                        (update_all-SavesNoClient app form users s.tables pending whole))
                      λ _.
                        bind-Keeps (On db P kept) _ _
                          (set_cookie-Keeps db P kept (success_message (text "Changes saved.")))
                          λ _. pure-Keeps (On db P kept) (redirect url))

  pub front_update_users-Keeps :
      (app : App) (visit : Visit) (form : Bytes → Bytes)
      → Keeps (On db P kept) (front_update_users app db visit form)
  unfolding front_update_users
  front_update_users-Keeps app visit form =
      with_browser_admin-Keeps db P kept app visit _ λ user. update_users-Keeps app visit form
