-- ===== src/System/Keeps/Signins.antt =====
-- /authenticate and /refresh, which save rows of clients, as handlers of System/Keeps.
use drasl.Prelude.{
  ◌≡◌, ◌∙◌, sym, subst, ap, Bool, true, false, Option, none, some, List, [], inl, inr, arith, Bytes,
  ◌==◌, All, keep, Bool-cases, Option-cases,
}
use drasl.Errors.{Result, ok, err, is_not_found, Result-cases}
use drasl.Flow.{next, need}
use drasl.Http.{json, json_error, status_ok, status_unauthorized, invalid_access_token, try}
use drasl.App.{App, Env}
use drasl.Model.Types.{User, Client, stale_policy_allow}
use drasl.Model.Ids.{uuid_to_id}
use drasl.Model.Tokens.{get_client, make_access_token}
use drasl.Model.Tokens.Sound.{get_client-IsGood}
use drasl.Model.Validate.{make_transient_user, transient_login_eligible}
use drasl.Database.Tables.{
  Tables, Database, Statement, create_user, save_client, save_user_and_clients, by_username, apply,
}
use drasl.Database.Laws.{IsLawful}
use drasl.Database.Rows.{All-In}
use drasl.Auth.Types.{AuthenticateRequest, RefreshRequest}
use drasl.Auth.{
  find_or_create_user, create_transient, check_password, choose_client, next_version, own_client,
  authenticate_response, refresh_response, auth_authenticate, auth_refresh,
}
use drasl.System.Keeps.{
  IsKept, Keeps, bind-Keeps, bind_given-Keeps, pure-Keeps, gets-Keeps, lift-Keeps, need-Keeps,
}
use drasl.System.Keeps.Apis.{try-Keeps, execute-Keeps, find_or_create_user-Keeps}
use drasl.System.Keeps.Clients.{
  OfClients, apply-OfClients, apply_all-OfClients, All-put_client, All-put_clients, All-keep,
  All-choose_client,
}

tried-ok :
    {A B : Type 0} (r : Result A) (a : A) (t : Tables) → (try {B = B} r t).0 ≡ next a → r ≡ ok a
tried-ok (ok b) a t h = cc h
tried-ok (err e) a t h = absurd (cc h)

needed-some :
    {R A : Type 0} (o : Option A) (r : R) (a : A) (t : Tables)
    → (need o r t).0 ≡ next a
    → o ≡ some a
needed-some (some b) r a t h = cc h
needed-some none r a t h = absurd (cc h)

module _ (db : Database) (lawful : IsLawful db) (A : Client → Type 0)
    (raises : (c : Client) → A c → A (next_version c)) where
  -- A statement with this effect, which may fail
  exec_keeps :
      (s : Statement)
      → ((t : Tables) → OfClients A raises t → OfClients A raises (apply s t))
      → (t : Tables) → OfClients A raises t
      → OfClients A raises (db.exec s t).1
  exec_keeps s keeps t all = elim (Option-cases (db.exec s t).0) [
    | inl e ↦ subst (OfClients A raises) (sym (lawful.exec-ok s t e)) (keeps t all)
    | inr (f, e) ↦ subst (OfClients A raises) (sym (lawful.exec-failed s t f e)) all
  ]

  pub OfClients-IsKept : IsKept db (OfClients A raises)
  OfClients-IsKept = record {
    exec_keeps = λ s safe. exec_keeps s (apply-OfClients A raises s safe);
    commit_keeps = λ pending all_safe t all. elim (Option-cases (db.commit pending t).0) [
      | inl e ↦
          subst (OfClients A raises) (sym (lawful.commit-ok pending t e))
            (apply_all-OfClients A raises pending t all_safe all)
      | inr (f, e) ↦ subst (OfClients A raises) (sym (lawful.commit-failed pending t f e)) all
    ];
  }

  created_clients :
      (app : App) (env : Env) (username : Bytes) (transient : Bool) (t : Tables) (user : User)
      (clients : List Client)
      → (create_transient app env db username transient t).0 ≡ next (user, clients)
      → clients ≡ []
  created_clients app env username false t user clients h = absurd (cc h)
  created_clients app env username true t user clients h =
      elim (Result-cases (make_transient_user app env username)) [
        | inr (e, p) ↦ absurd (ground arith)
        | inl (u, p) ↦ elim (Option-cases (db.exec (create_user u) t).0) [
          | inr (f, q) ↦ absurd (ground arith)
          | inl q ↦ ground arith
        ]
      ]

  found_clients :
      (app : App) (env : Env) (username : Bytes) (transient : Bool) (t : Tables) (user : User)
      (clients : List Client)
      → OfClients A raises t
      → (find_or_create_user app env db username transient t).0 ≡ next (user, clients)
      → All A clients
  unfolding find_or_create_user
  found_clients app env username transient t user clients all h =
      elim (Result-cases (db.first_user (by_username username) t)) [
        | inl (u, p) ↦
            let same : keep (λ c. c.user_uuid == u.uuid) t.clients ≡ clients =
              sym (lawful.clients_of-lem u t) ∙ ground arith in
            subst (All A) same (All-keep A raises (λ c. c.user_uuid == u.uuid) t.clients all)
        | inr (e, p) ↦ elim (Bool-cases (is_not_found e)) [
          | inr n ↦ absurd (ground arith)
          | inl y ↦
              let none_yet =
                created_clients app env username transient t user clients (ground arith) in
              subst (All A) (sym none_yet) tt
        ]
      ]

  abbrev Kept : Tables → Type 0
  Kept = OfClients A raises

  pub auth_authenticate-Keeps :
      (app : App) (env : Env) (bound : Result AuthenticateRequest)
      → ((c : Client) → c.uuid ≡ env.new_uuid → A c)
      → Keeps Kept (auth_authenticate app env db bound)
  unfolding auth_authenticate
  auth_authenticate-Keeps app env bound fresh = bind-Keeps Kept _ _ (try-Keeps Kept bound) λ req.
      let transient = transient_login_eligible app req.username in
      bind_given-Keeps Kept _ _
        (find_or_create_user-Keeps db Kept OfClients-IsKept app env req.username transient)
        λ found t all h.
          let old = found_clients app env req.username transient t found.0 found.1 all h in
          bind-Keeps Kept _ _ (lift-Keeps Kept (check_password app found.0 req.password transient))
            λ _.
              bind_given-Keeps Kept _ _
                (try-Keeps Kept (choose_client app env found.0 found.1 req.client_token))
                λ chosen t' _ tried.
                  let made =
                    tried-ok (choose_client app env found.0 found.1 req.client_token) chosen t'
                      tried in
                  let saved =
                    All-choose_client A raises app env found.0 found.1 chosen.0 req.client_token
                      chosen.1 fresh old made in
                  bind-Keeps Kept _ _
                    (execute-Keeps db Kept (save_user_and_clients found.0 chosen.0) (
                      exec_keeps (save_user_and_clients found.0 chosen.0)
                        (λ t all. All-put_clients A raises chosen.0 t.clients saved all)))
                    λ _. bind-Keeps Kept _ _ (try-Keeps Kept (uuid_to_id found.0.uuid)) λ id.
                      bind-Keeps Kept _ _ (try-Keeps Kept (make_access_token app env.now chosen.1))
                        λ token.
                          pure-Keeps Kept
                            (json status_ok (authenticate_response req found.0 id chosen.1 token))

  -- The client behind a token stands in the tables.
  own_client-A :
      (app : App) (env : Env) (token client_token : Bytes) (t : Tables) (own : Client × User)
      → OfClients A raises t
      → own_client (get_client app db env.now token stale_policy_allow t) client_token ≡ some own
      → A own.0
  own_client-A app env token client_token t own all h =
      elim (Option-cases (get_client app db env.now token stale_policy_allow t)) [
        | inl p ↦ absurd (ground arith)
        | inr (found, p) ↦
            let same : found.0 ≡ own.0 = ground arith in
            let (claims, g) =
              get_client-IsGood app db env.now token stale_policy_allow t found.0 found.1 p in
            let (member, _, _) = lawful.first_client-ok claims.subject t found.0 found.1 g.loaded in
            subst A same (All-In A found.0 t.clients all member)
      ]

  pub auth_refresh-Keeps :
      (app : App) (env : Env) (bound : Result RefreshRequest)
      → Keeps Kept (auth_refresh app env db bound)
  unfolding auth_refresh
  auth_refresh-Keeps app env bound = bind-Keeps Kept _ _ (try-Keeps Kept bound) λ req.
      bind_given-Keeps Kept _ _
        (gets-Keeps Kept (get_client app db env.now req.access_token stale_policy_allow))
        λ found t all h.
          bind_given-Keeps Kept _ _
            (need-Keeps Kept (own_client found req.client_token)
              (json_error status_unauthorized invalid_access_token))
            λ own t' _ needed.
              let needed' = needed-some (own_client found req.client_token) _ own t' needed in
              let loaded : get_client app db env.now req.access_token stale_policy_allow t ≡ found =
                cc h in
              let a =
                own_client-A app env req.access_token req.client_token t own all
                  (ap (λ x. own_client x req.client_token) loaded ∙ needed') in
              bind-Keeps Kept _ _ (try-Keeps Kept (uuid_to_id own.1.uuid)) λ id.
                bind-Keeps Kept _ _
                  (try-Keeps Kept (make_access_token app env.now (next_version own.0)))
                  λ token.
                    bind-Keeps Kept _ _
                      (execute-Keeps db Kept (save_client (next_version own.0)) (
                        exec_keeps (save_client (next_version own.0)) (λ t all.
                          All-put_client A raises (next_version own.0) t.clients (raises own.0 a)
                            all)))
                      λ _.
                        pure-Keeps Kept (
                          json status_ok (refresh_response req own.1 id (next_version own.0) token))
