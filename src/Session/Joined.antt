-- ===== src/Session/Joined.antt =====
-- Whom `hasJoined` confirms.
use drasl.Prelude.{
  ℕ, ◌≡◌, ◌≢◌, refl, ap, ◌∙◌, true, false, Option, none, some, List, [], ◌∷◌, inl, inr, arith,
  Bytes, ◌==◌, eq_iff, eq_refl, Option-cases, Bool-cases,
}
use drasl.Errors.{Error, ok, err, Result-cases}
use drasl.Flow.{run}
use drasl.Http.{json, no_content, status_forbidden, status_ok, status_no_content}
use drasl.App.{App, Env, CachedGet, ProfileResponse}
use drasl.Model.Types.{User, Client, stale_policy_deny}
use drasl.Model.Tokens.{get_client}
use drasl.Database.Tables.{Tables, Database, by_player_name, nocase, column_is, put_user, save_user}
use drasl.Database.Laws.{In, HasUniqueKeys, IsLawful}
use drasl.Database.Rows.{UniqueBy-In}
use drasl.Session.{
  SessionJoinRequest, with_server, session_join, full_profile, fallback_reply, session_has_joined,
  ask_server, first_answer,
}

column_is-some :
    (column : Option Bytes) (value : Bytes) → column_is column value ≡ true → column ≡ some value
column_is-some none value h = absurd (cc h)
column_is-some (some a) value h = ground (arith, eq_iff a value)

fallback_ne :
    (status : ℕ) (body : Option Bytes) (profile : ProfileResponse)
    → fallback_reply status body ≢ json status_ok profile
fallback_ne status none profile h = cc h
fallback_ne status (some body) profile h = cc h

module _ (app : App) (env : Env) (db : Database) (cached_get : CachedGet)
    (player_name server_id : Bytes) (t : Tables) (profile : ProfileResponse) where
  unknown_refused :
      (e : Error)
      → db.first_user (by_player_name player_name) t ≡ err e
      → session_has_joined app env db cached_get player_name server_id t ≢ json status_ok profile
  unfolding session_has_joined
  unknown_refused e p h =
      let refused =
        fallback_ne status_forbidden
          (first_answer (ask_server app env player_name server_id true)
            app.config.fallback_api_servers)
          profile in
      ground arith

  joined_there :
      (user : User)
      → db.first_user (by_player_name player_name) t ≡ ok user
      → session_has_joined app env db cached_get player_name server_id t ≡ json status_ok profile
      → column_is user.server_id server_id ≡ true
  unfolding session_has_joined
  joined_there user p h =
      let refused =
        fallback_ne status_forbidden
          (first_answer (ask_server app env player_name server_id false)
            app.config.fallback_api_servers)
          profile in
      ground arith

  answered :
      (user : User)
      → db.first_user (by_player_name player_name) t ≡ ok user
      → session_has_joined app env db cached_get player_name server_id t ≡ json status_ok profile
      → full_profile app env cached_get user user.uuid true ≡ ok profile
  unfolding session_has_joined
  answered user p h =
      let there = joined_there user p h in
      elim (Result-cases (full_profile app env cached_get user user.uuid true)) [
        | inl (made, q) ↦ ground arith
        | inr (e, q) ↦ ground arith
      ]

-- A profile that this server gives itself to a server's question is the profile of a stored user
-- whose name is the one asked for, up to case, and whose last join was to that server.
pub session_has_joined-In :
    (app : App) (env : Env) (db : Database) (cached_get : CachedGet) (player_name server_id : Bytes)
    (t : Tables) (profile : ProfileResponse)
    → IsLawful db
    → session_has_joined app env db cached_get player_name server_id t ≡ json status_ok profile
    → (user : User) × In user t.users
      × (nocase user.player_name ≡ nocase player_name)
      × (user.server_id ≡ some server_id)
      × (full_profile app env cached_get user user.uuid true ≡ ok profile)
unfolding session_has_joined
session_has_joined-In app env db cached_get player_name server_id t profile lawful h =
    elim (Result-cases (db.first_user (by_player_name player_name) t)) [
      | inr (e, p) ↦
          absurd (unknown_refused app env db cached_get player_name server_id t profile e p h)
      | inl (user, p) ↦
          let (member, named) = lawful.first_user-ok (by_player_name player_name) t user p in
          (
            user,
            member,
            ground (arith, eq_iff (nocase user.player_name) (nocase player_name)),
            column_is-some user.server_id server_id
                (joined_there app env db cached_get player_name server_id t profile user p h),
            answered app env db cached_get player_name server_id t profile user p h,
          )
    ]

In-put_user_self : (u : User) (users : List User) → In u (put_user u users)
unfolding put_user
In-put_user_self u [] = inl refl
In-put_user_self u (v ∷ users) = elim (Bool-cases (v.uuid == u.uuid)) [
  | inl same ↦ rw same (inl refl)
  | inr other ↦ rw other (inr (In-put_user_self u users))
]

join-inverse :
    (app : App) (env : Env) (db : Database) (req : SessionJoinRequest) (t t' : Tables) (c : Client)
    (u : User)
    → IsLawful db
    → get_client app db env.now req.access_token stale_policy_deny t ≡ some (c, u)
    → run (session_join app env db (ok req)) t ≡ (no_content status_no_content, t')
    → ((db.exec (save_user (with_server u req.server_id)) t).0 ≡ none)
      × (t' ≡ (db.exec (save_user (with_server u req.server_id)) t).1)
unfolding session_join
join-inverse app env db req t t' c u lawful found h =
    elim (Option-cases (db.exec (save_user (with_server u req.server_id)) t).0) [
      | inl e ↦ (e, ground arith)
      | inr (e, p) ↦ absurd (ground arith)
    ]

-- After a join that succeeds with an access token of a user, a server that asks about the joined
-- server and finds this user under the name gets the user's profile, if that can be made.
pub session_join-session_has_joined :
    (app : App) (env env' : Env) (db : Database) (cached_get : CachedGet) (req : SessionJoinRequest)
    (player_name : Bytes) (t t' : Tables) (c : Client) (u v : User) (profile : ProfileResponse)
    → IsLawful db
    → HasUniqueKeys t
    → get_client app db env.now req.access_token stale_policy_deny t ≡ some (c, u)
    → run (session_join app env db (ok req)) t ≡ (no_content status_no_content, t')
    → db.first_user (by_player_name player_name) t' ≡ ok v
    → v.uuid ≡ u.uuid
    → full_profile app env' cached_get (with_server u req.server_id) u.uuid true ≡ ok profile
    → session_has_joined app env' db cached_get player_name req.server_id t'
      ≡ json status_ok profile
unfolding session_has_joined
session_join-session_has_joined app env env' db cached_get req player_name t t' c u v profile lawful
      unique found h loaded same made =
    let user = with_server u req.server_id in
    let (saved, after) = join-inverse app env db req t t' c u lawful found h in
    let stored : t'.users ≡ put_user user t.users =
      ap (λ (x : Tables). x.users) (after ∙ lawful.exec-ok (save_user user) t saved) in
    let unique' : HasUniqueKeys t' =
      rw after (lawful.exec-HasUniqueKeys (save_user user) t unique saved) in
    let is : v ≡ user =
      UniqueBy-In (λ (x : User). x.uuid) v user t'.users unique'.user_uuids
        (lawful.first_user-ok (by_player_name player_name) t' v loaded).0
        (rw stored (In-put_user_self user t.users)) same in
    let loaded' : db.first_user (by_player_name player_name) t' ≡ ok user = rw (← is) loaded in
    let here = eq_refl req.server_id in ground arith
