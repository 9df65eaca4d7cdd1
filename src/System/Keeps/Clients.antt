-- ===== src/System/Keeps/Clients.antt =====
-- A property of every client that raising versions keeps, under the changes of the clients' rows.
use drasl.Prelude.{
  ◌≡◌, refl, subst, Bool, true, false, Option, none, some, List, [], ◌∷◌, ◌++◌, map, inl, inr,
  arith, Bytes, ◌==◌, All, keep, Bool-cases, Option-cases, if◌then◌else◌,
}
use drasl.Errors.{ok, Result-cases}
use drasl.App.{App, Env, random_hex}
use drasl.Model.Types.{User, Client}
use drasl.Database.Tables.{
  Tables, Statement, save_user, create_user, delete_user, increment_versions, create_invite,
  delete_invite, make_admins, save_client, save_user_and_clients, put_client, put_clients, bump,
  apply, apply_all,
}
use drasl.Auth.{choose_client, touch_clients, new_client, next_version}
use drasl.System.Keeps.{SavesNoClient}

module _ (A : Client → Type 0) (raises : (c : Client) → A c → A (next_version c)) where
  abbrev pub OfClients : Tables → Type 0
  OfClients t = All A t.clients

  pub All-put_client :
      (c : Client) (clients : List Client) → A c → All A clients → All A (put_client c clients)
  unfolding put_client
  All-put_client c [] a all = (a, tt)
  All-put_client c (d ∷ clients) a (b, all) = elim (Bool-cases (d.uuid == c.uuid)) [
    | inl same ↦ rw same (a, all)
    | inr other ↦ rw other (b, All-put_client c clients a all)
  ]

  pub All-put_clients :
      (cs clients : List Client) → All A cs → All A clients → All A (put_clients cs clients)
  unfolding put_clients
  All-put_clients [] clients all old = old
  All-put_clients (c ∷ cs) clients (a, all) old =
      All-put_clients cs (put_client c clients) all (All-put_client c clients a old)

  All-bump :
      (user_uuid : Bytes) (clients : List Client)
      → All A clients
      → All A (map (bump user_uuid) clients)
  All-bump user_uuid [] all = tt
  All-bump user_uuid (c ∷ clients) (a, all) = elim (Bool-cases (c.user_uuid == user_uuid)) [
    | inl own ↦ rw own (raises c a, All-bump user_uuid clients all)
    | inr other ↦ rw other (a, All-bump user_uuid clients all)
  ]

  pub All-keep :
      (p : Client → Bool) (clients : List Client) → All A clients → All A (keep p clients)
  All-keep p [] all = tt
  All-keep p (c ∷ clients) (a, all) = elim (Bool-cases (p c)) [
    | inl y ↦ rw y (a, All-keep p clients all)
    | inr n ↦ rw n (All-keep p clients all)
  ]

  All-append : (xs ys : List Client) → All A xs → All A ys → All A (xs ++ ys)
  All-append [] ys all more = more
  All-append (x ∷ xs) ys (a, all) more = (a, All-append xs ys all more)

  pub apply-OfClients :
      (s : Statement) → SavesNoClient s → (t : Tables) → OfClients t → OfClients (apply s t)
  apply-OfClients (save_user _) _ t all = all
  apply-OfClients (save_user_and_clients _ _) saved t all = absurd saved
  apply-OfClients (create_user _) _ t all = all
  apply-OfClients (delete_user _) _ t all = all
  apply-OfClients (save_client _) saved t all = absurd saved
  apply-OfClients (increment_versions user_uuid) _ t all = All-bump user_uuid t.clients all
  apply-OfClients (create_invite _) _ t all = all
  apply-OfClients (delete_invite _) _ t all = all
  apply-OfClients (make_admins _) _ t all = all

  pub apply_all-OfClients :
      (pending : List Statement) (t : Tables)
      → All SavesNoClient pending
      → OfClients t
      → OfClients (apply_all pending t)
  apply_all-OfClients [] t _ all = all
  apply_all-OfClients (s ∷ pending) t (safe, all_safe) all =
      apply_all-OfClients pending (apply s t) all_safe (apply-OfClients s safe t all)

  All-touch_clients :
      (multiple : Bool) (token : Bytes) (clients : List Client)
      → All A clients
      → All A (touch_clients multiple token clients).0
  unfolding touch_clients
  All-touch_clients multiple token [] all = tt
  All-touch_clients multiple token (c ∷ clients) (a, all) =
      elim (Bool-cases (c.client_token == token)) [
        | inl e ↦ rw e (raises c a, all)
        | inr e ↦ rw e (kept_or_raised multiple, All-touch_clients multiple token clients all)
      ]
    where
      kept_or_raised : (m : Bool) → A (if m then c else next_version c)
      kept_or_raised true = a
      kept_or_raised false = raises c a

  pub All-choose_client :
      (app : App) (env : Env) (user : User) (clients clients' : List Client) (token : Option Bytes)
      (client : Client)
      → ((c : Client) → c.uuid ≡ env.new_uuid → A c)
      → All A clients
      → choose_client app env user clients token ≡ ok (clients', client)
      → All A clients'
  unfolding choose_client
  All-choose_client app env user clients clients' none client fresh all h =
      elim (Result-cases (random_hex env 16)) [
        | inr (e, p) ↦ absurd (ground arith)
        | inl (token, p) ↦
            let same : clients ++ (new_client env user token ∷ []) ≡ clients' = ground arith in
            subst (All A) same (
              All-append clients (new_client env user token ∷ []) all
                (fresh (new_client env user token) refl, tt))
      ]
  All-choose_client app env user clients clients' (some token) client fresh all h =
      let multiple = app.config.allow_multiple_access_tokens in
      let touched = (touch_clients multiple token clients).0 in
      let raised = All-touch_clients multiple token clients all in
      elim (Option-cases (touch_clients multiple token clients).1) [
        | inl p ↦
            let same : touched ++ (new_client env user token ∷ []) ≡ clients' = ground arith in
            subst (All A) same (
              All-append touched (new_client env user token ∷ []) raised
                (fresh (new_client env user token) refl, tt))
        | inr (c, p) ↦ let same : touched ≡ clients' = ground arith in subst (All A) same raised
      ]
