-- ===== src/System/Keeps/Apis.antt =====
-- The handlers of the APIs, as handlers of System/Keeps.
use drasl.Prelude.{
  ◌≡◌, refl, Bool, true, false, Option, none, some, [], Bytes, ◌==◌, Bool-cases, Option-cases, inl,
  inr, sym, subst,
}
use drasl.Flow.{Exec}
use drasl.Errors.{Error, Result, ok, err, is_not_found, Result-cases}
use drasl.Http.{
  Reply, try, check, json_error, status_unauthorized, status_forbidden, invalid_access_token,
  invalid_credentials, no_content, status_no_content,
}
use drasl.App.{App, Env, CachedGet}
use drasl.Model.Types.{User, stale_policy_allow, stale_policy_deny}
use drasl.Model.Tokens.{get_client}
use drasl.Model.Validate.{make_transient_user, validate_player_name}
use drasl.Database.Tables.{
  Tables, Database, Statement, create_user, by_username, save_user, increment_versions,
}
use drasl.Auth.Types.{TokenRequest, SignoutRequest}
use drasl.Auth.{
  execute, find_or_create_user, create_transient, hash_password, own_client, invalidate_user,
  auth_signout, auth_invalidate,
}
use drasl.Session.{SessionJoinRequest, with_server, session_join}
use drasl.Services.{Call, bearer_token, with_bearer_authentication, change_name, rename_user}
use drasl.System.Keeps.{
  IsKept, Keeps, bind-Keeps, still-Keeps, pure-Keeps, gets-Keeps, need-Keeps, guard-Keeps,
}

pub try-Keeps :
    {A B : Type 0} (P : Tables → Type 0) (r : Result A) → Keeps P (try {S = Tables} {B = B} r)
try-Keeps P (ok a) = still-Keeps P (try (ok a)) (λ s. refl)
try-Keeps P (err e) = still-Keeps P (try (err e)) (λ s. refl)

check-state : (B : Type 0) (e : Option Error) (t : Tables) → (check {B = B} e t).1 ≡ t
check-state B none t = refl
check-state B (some e) t = refl

-- A statement that keeps the condition whenever it is executed
pub execute-Keeps :
    {B : Type 0} (db : Database) (P : Tables → Type 0) (s : Statement)
    → ((t : Tables) → P t → P (db.exec s t).1)
    → Keeps P (execute {B = B} (db.exec s))
execute-Keeps {B} db P s keeps = record {
  keep = λ t p. subst P (sym (check-state B (db.exec s t).0 (db.exec s t).1)) (keeps t p);
}

module _ (db : Database) (P : Tables → Type 0) (kept : IsKept db P) where
  create_transient-Keeps :
      (app : App) (env : Env) (username : Bytes) (transient : Bool)
      → Keeps P (create_transient app env db username transient)
  create_transient-Keeps app env username true =
      bind-Keeps P _ _ (try-Keeps P (make_transient_user app env username)) λ user.
        bind-Keeps P _ _
          (execute-Keeps db P (create_user user) (kept.exec_keeps (create_user user) tt))
          λ _. pure-Keeps P (user, [])
  create_transient-Keeps app env username false = still-Keeps P _ (λ t. refl)

  pub find_or_create_user-Keeps :
      (app : App) (env : Env) (username : Bytes) (transient : Bool)
      → Keeps P (find_or_create_user app env db username transient)
  unfolding find_or_create_user
  find_or_create_user-Keeps app env username transient = record {
    keep = λ t p. elim (Result-cases (db.first_user (by_username username) t)) [
      | inl (u, e) ↦ rw (find_or_create_user, e) p
      | inr (e, q) ↦
          rw (find_or_create_user, q)
            (elim (Bool-cases (is_not_found e)) [
              | inl y ↦ rw y ((create_transient-Keeps app env username transient).keep t p)
              | inr n ↦ rw n p
            ])
    ];
  }

  pub auth_signout-Keeps :
      (app : App) (env : Env) (bound : Result SignoutRequest)
      → Keeps P (auth_signout app env db bound)
  unfolding auth_signout invalidate_user
  auth_signout-Keeps app env bound = bind-Keeps P _ _ (try-Keeps P bound) λ req.
      bind-Keeps P _ _ (gets-Keeps P (db.first_user (by_username req.username))) λ found.
        bind-Keeps P _ _ (try-Keeps P found) λ user.
          bind-Keeps P _ _ (try-Keeps P (hash_password app req.password user.password_salt))
            λ password_hash.
              bind-Keeps P _ _
                (guard-Keeps P (password_hash == user.password_hash)
                  (json_error status_unauthorized invalid_credentials))
                λ _.
                  bind-Keeps P _ _
                    (execute-Keeps db P (increment_versions user.uuid)
                      (kept.exec_keeps (increment_versions user.uuid) tt))
                    λ _. pure-Keeps P (no_content status_no_content)

  pub auth_invalidate-Keeps :
      (app : App) (env : Env) (bound : Result TokenRequest)
      → Keeps P (auth_invalidate app env db bound)
  unfolding auth_invalidate invalidate_user
  auth_invalidate-Keeps app env bound = bind-Keeps P _ _ (try-Keeps P bound) λ req.
      bind-Keeps P _ _
        (gets-Keeps P (get_client app db env.now req.access_token stale_policy_allow))
        λ found.
          bind-Keeps P _ _
            (need-Keeps P (own_client found req.client_token)
              (json_error status_unauthorized invalid_access_token))
            λ own.
              bind-Keeps P _ _
                (execute-Keeps db P (increment_versions own.1.uuid)
                  (kept.exec_keeps (increment_versions own.1.uuid) tt))
                λ _. pure-Keeps P (no_content status_no_content)

  pub session_join-Keeps :
      (app : App) (env : Env) (bound : Result SessionJoinRequest)
      → Keeps P (session_join app env db bound)
  unfolding session_join
  session_join-Keeps app env bound = bind-Keeps P _ _ (try-Keeps P bound) λ req.
      bind-Keeps P _ _ (gets-Keeps P (get_client app db env.now req.access_token stale_policy_deny))
        λ found.
          bind-Keeps P _ _ (need-Keeps P found (json_error status_forbidden invalid_access_token))
            λ own.
              bind-Keeps P _ _
                (execute-Keeps db P (save_user (with_server own.1 req.server_id))
                  (kept.exec_keeps (save_user (with_server own.1 req.server_id)) tt))
                λ _. pure-Keeps P (no_content status_no_content)

  pub change_name-Keeps :
      (app : App) (env : Env) (cached_get : CachedGet) (req : Call) (player_name : Bytes)
      (user : User)
      → Keeps P (change_name app env db cached_get req player_name user)
  unfolding change_name
  change_name-Keeps app env cached_get req player_name user = record {
    keep = λ t p. elim (Result-cases (validate_player_name app player_name)) [
      | inr (e, v) ↦ rw (change_name, v) p
      | inl (_, v) ↦ elim (Option-cases (rename_user app env user player_name)) [
        | inl r ↦ rw (change_name, v, r) p
        | inr (u, r) ↦
            let after = kept.exec_keeps (save_user u) tt t p in
            elim (Option-cases (db.exec (save_user u) t).0) [
              | inl e ↦ rw (change_name, v, r, e) after
              | inr (f, e) ↦ rw (change_name, v, r, e) after
            ]
      ]
    ];
  }

-- A handler behind a bearer token keeps what its part for a user keeps.
pub with_bearer_authentication-Keeps :
    {S A : Type 0} (Q : S → Type 0) (app : App) (env : Env) (db : Database) (tables_of : S → Tables)
    (req : Call) (f : User → Exec S (Reply A) (Reply A))
    → ((user : User) → Keeps Q (f user))
    → Keeps Q (with_bearer_authentication app env db tables_of req f)
unfolding with_bearer_authentication
with_bearer_authentication-Keeps Q app env db tables_of req f keeps = record {
  keep = λ s q. elim (Option-cases (bearer_token req.authorization)) [
    | inl e ↦ rw (with_bearer_authentication, e) q
    | inr (token, e) ↦
        elim (Option-cases (get_client app db env.now token stale_policy_allow (tables_of s))) [
          | inl g ↦ rw (with_bearer_authentication, e, g) q
          | inr (own, g) ↦ rw (with_bearer_authentication, e, g) ((keeps own.1).keep s q)
        ]
  ];
}
