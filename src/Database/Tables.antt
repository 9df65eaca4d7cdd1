-- ===== src/Database/Tables.antt =====
-- The tables, the conditions of the queries, and the effect of each statement.
use drasl.Prelude.{
  ℕ, ◌+◌, Bool, true, false, ◌&&◌, not, Option, none, some, List, [], ◌∷◌, ◌++◌, map, Bytes, ◌==◌,
  leb, keep, if◌then◌else◌,
}
use drasl.Errors.{Error, Result}
use drasl.Util.{contains}
use drasl.Model.Types.{User, Client, Invite}

pub record Tables : Type 0 where
  pub users : List User
  pub clients : List Client
  pub invites : List Invite

-- `First(&user, "<column> = ?", value)`
pub data UserCond : Type 0 where
  by_username by_player_name by_uuid by_offline_uuid by_browser_token : Bytes → UserCond

-- `collate nocase` compares ASCII letters without their case.
lower : ℕ → ℕ
lower c = if leb b'A' c && leb c b'Z' then c + 32 else c

unfoldable pub nocase : Bytes → Bytes
unfolding lower
nocase = map lower

-- A null equals nothing.
abbrev pub column_is : Option Bytes → Bytes → Bool
column_is none value = false
column_is (some a) value = a == value

abbrev pub matches : UserCond → User → Bool
matches (by_username value) u = u.username == value
matches (by_player_name value) u = nocase u.player_name == nocase value
matches (by_uuid value) u = u.uuid == value
matches (by_offline_uuid value) u = u.offline_uuid == value
matches (by_browser_token value) u = column_is u.browser_token value

pub data Statement : Type 0 where
  -- `Save(&user)`, and `Save` with `FullSaveAssociations`, which saves the clients too
  save_user : User → Statement
  save_user_and_clients : User → List Client → Statement
  create_user : User → Statement
  delete_user : Bytes → Statement
  -- `Save(client)`
  save_client : Client → Statement
  -- `UPDATE clients SET version = version + 1 WHERE user_uuid = ?`
  increment_versions : Bytes → Statement
  create_invite : Invite → Statement
  delete_invite : Bytes → Statement
  -- `UPDATE users SET is_admin = true WHERE username in (?)`
  make_admins : List Bytes → Statement

-- A row with the primary key is replaced; without one the row is added.
unfoldable pub put_user : User → List User → List User
put_user u [] = u ∷ []
put_user u (v ∷ users) = if v.uuid == u.uuid then u ∷ users else v ∷ put_user u users

unfoldable pub put_client : Client → List Client → List Client
put_client c [] = c ∷ []
put_client c (d ∷ clients) = if d.uuid == c.uuid then c ∷ clients else d ∷ put_client c clients

unfoldable pub put_clients : List Client → List Client → List Client
unfolding put_client
put_clients [] clients = clients
put_clients (c ∷ cs) clients = put_clients cs (put_client c clients)

abbrev pub bump : Bytes → Client → Client
bump user_uuid c = if c.user_uuid == user_uuid then record c { version = c.version + 1 } else c

abbrev pub promote : List Bytes → User → User
promote usernames u = if contains usernames u.username then record u { is_admin = true } else u

abbrev pub apply : Statement → Tables → Tables
apply (save_user u) t = record t { users = put_user u t.users }
apply (save_user_and_clients u cs) t = record t {
  users = put_user u t.users;
  clients = put_clients cs t.clients;
}
apply (create_user u) t = record t { users = t.users ++ (u ∷ []) }
apply (delete_user uuid) t = record t { users = keep (λ u. not (u.uuid == uuid)) t.users }
apply (save_client c) t = record t { clients = put_client c t.clients }
apply (increment_versions user_uuid) t = record t { clients = map (bump user_uuid) t.clients }
apply (create_invite i) t = record t { invites = t.invites ++ (i ∷ []) }
apply (delete_invite code) t = record t { invites = keep (λ i. not (i.code == code)) t.invites }
apply (make_admins usernames) t = record t { users = map (promote usernames) t.users }

-- The statements of a transaction, in order.
abbrev pub apply_all : List Statement → Tables → Tables
apply_all [] t = t
apply_all (s ∷ pending) t = apply_all pending (apply s t)

-- A query gives a value or an error, `record_not_found` among them. A statement gives the tables
-- that it leaves, and the error if it failed.
pub record Database : Type 0 where
  pub first_user : UserCond → Tables → Result User
  -- with `Preload("User")`
  pub first_client : Bytes → Tables → Result (Client × User)
  -- `Preload("Clients")`
  pub clients_of : User → Tables → List Client
  pub first_invite : Bytes → Tables → Result Invite
  pub find_users : Tables → Result (List User)
  pub find_invites : Tables → Result (List Invite)
  -- `Model(&User{}).Count(&count)`, and `First(&invite)` with no condition
  pub count_users : Tables → Result ℕ
  pub any_invite : Tables → Result Invite
  -- `Select("count(*) > 0").Where("skin_hash = ?", hash)`, and the same for capes
  pub skin_in_use : Bytes → Tables → Result Bool
  pub cape_in_use : Bytes → Tables → Result Bool
  pub exec : Statement → Tables → Option Error × Tables
  -- A statement in a transaction behind its pending statements: its error. `commit` applies them.
  pub tx_exec : Statement → List Statement → Tables → Option Error
  pub commit : List Statement → Tables → Option Error × Tables
