-- ===== src/Front/Update/Changes.antt =====
-- What an update may do to an account: the permitted changes, of which `edit_user` is a sequence.
use drasl.Prelude.{
  ◌≡◌, refl, ◌⊎◌, inl, inr, ◌||◌, ◌&&◌, Bool, true, false, not, is_some, Option, none, some, [],
  arith, Bytes, ◌==◌, eq_iff, Bool-cases, Option-cases,
}
use drasl.Errors.{with_error, text, ok}
use drasl.App.{App, Env}
use drasl.Model.Types.{User}
use drasl.Model.Validate.{
  validate_player_name, validate_player_name_or_uuid, validate_password, get_offline_uuid,
  is_valid_preferred_language, is_valid_skin_model,
}
use drasl.Textures.{Kind, skin, cape, Upload, with_hash, validate, read_texture}
use drasl.Front.Types.{bad_request}
use drasl.Front.Gives.{
  Gives, bind-Gives, weaken-Gives, pure-Gives, accept-Gives, try-Gives, refuse_if-Gives, if-Gives,
}
use drasl.Front.Fields.{
  TextureForm, UpdateForm, Download, check_fallback_player, update_player_name,
  update_fallback_player, update_language, update_password, update_skin_model,
}
use drasl.Front.Update.{
  Edit, allowed, not_allowed, download_failed, invalid_texture, open_texture, update_texture,
  edit_user,
}

-- What the configuration allows, or anything for an administrator.
abbrev pub IsAllowed : Bool → User → Type 0
IsAllowed setting user = (setting ≡ true) ⊎ (user.is_admin ≡ true)

-- One permitted change by `user` to an account.
pub data Change (app : App) (env : Env) (user : User) (form : UpdateForm) (old new : User)
    : Type 0 where
  renamed :
      (offline_uuid : Bytes)
      → validate_player_name app form.player_name ≡ ok tt
      → IsAllowed app.config.allow_changing_player_name user
      → get_offline_uuid app form.player_name ≡ ok offline_uuid
      → new ≡ record old {
        player_name = form.player_name;
        offline_uuid = offline_uuid;
        name_last_changed_at = env.now;
      }
      → Change app env user form old new
  falls_back :
      (form.fallback_player ≡ []) ⊎ (validate_player_name_or_uuid app form.fallback_player ≡ ok tt)
      → new ≡ record old { fallback_player = form.fallback_player }
      → Change app env user form old new
  speaks :
      is_valid_preferred_language form.preferred_language ≡ true
      → new ≡ record old { preferred_language = form.preferred_language }
      → Change app env user form old new
  secured :
      (password_salt password_hash : Bytes)
      → validate_password app form.password ≡ ok tt
      → env.rand_read 16 ≡ ok password_salt
      → app.scrypt_key form.password password_salt ≡ ok password_hash
      → new ≡ record old { password_salt = password_salt; password_hash = password_hash }
      → Change app env user form old new
  modelled :
      is_valid_skin_model form.skin_model ≡ true
      → new ≡ record old { skin_model = form.skin_model }
      → Change app env user form old new
  textured :
      (kind : Kind) (reader : Upload) (buf hash : Bytes)
      → IsAllowed (allowed kind app) user
      → validate kind app reader ≡ ok tt
      → read_texture app reader ≡ ok (buf, hash)
      → new ≡ with_hash kind old (some hash)
      → Change app env user form old new
  untextured : (kind : Kind) → new ≡ with_hash kind old none → Change app env user form old new

-- A sequence of changes
pub data Changes (app : App) (env : Env) (user : User) (form : UpdateForm) (old : User)
    : User → Type 0 where
  unchanged : Changes app env user form old old
  change :
      (mid new : User)
      → Changes app env user form old mid
      → Change app env user form mid new
      → Changes app env user form old new

IsAllowed-test :
    (setting : Bool) (user : User)
    → (not setting && not user.is_admin) ≡ false
    → IsAllowed setting user
IsAllowed-test true user h = inl refl
IsAllowed-test false user h = inr (ground arith)

module _ (app : App) (env : Env) (user : User) (form : UpdateForm) (url : Bytes) (old : User) where
  -- What was reached from the old account
  abbrev pub Reached : User → Type 0
  Reached = Changes app env user form old

  update_player_name-Gives :
      (u : User)
      → Reached u
      → Gives Reached (update_player_name app env user form.player_name url u)
  unfolding update_player_name
  update_player_name-Gives u r =
      if-Gives Reached (form.player_name == [] || form.player_name == u.player_name) _ _
        (λ _. pure-Gives Reached u r)
        λ _.
          bind-Gives _ Reached _ _
            (accept-Gives (validate_player_name app form.player_name)
              (with_error "Invalid player name: %s") url)
            λ _ valid.
              bind-Gives _ Reached _ _
                (refuse_if-Gives (not app.config.allow_changing_player_name && not user.is_admin)
                  (text "Changing your player name is not allowed.") url)
                λ _ may.
                  bind-Gives _ Reached _ _ (try-Gives (get_offline_uuid app form.player_name))
                    λ offline made. pure-Gives Reached _ (
                      change u _ r (
                        renamed offline valid
                          (IsAllowed-test app.config.allow_changing_player_name user may) made
                          refl))

  fallback_test :
      check_fallback_player app form.fallback_player ≡ ok tt
      → (form.fallback_player ≡ [])
        ⊎ (validate_player_name_or_uuid app form.fallback_player ≡ ok tt)
  fallback_test h = elim (Bool-cases (form.fallback_player == [])) [
    | inl y ↦ inl ((eq_iff form.fallback_player []).0 y)
    | inr n ↦ inr (ground arith)
  ]

  update_fallback_player-Gives :
      (u : User) → Reached u → Gives Reached (update_fallback_player app form.fallback_player url u)
  unfolding update_fallback_player
  update_fallback_player-Gives u r =
      if-Gives Reached (form.fallback_player == u.fallback_player) _ _ (λ _. pure-Gives Reached u r)
        λ _.
          bind-Gives _ Reached _ _
            (accept-Gives (check_fallback_player app form.fallback_player)
              (with_error "Invalid fallback player: %s") url)
            λ _ valid. pure-Gives Reached _ (change u _ r (falls_back (fallback_test valid) refl))

  update_language-Gives :
      (u : User) → Reached u → Gives Reached (update_language form.preferred_language url u)
  unfolding update_language
  update_language-Gives u r =
      if-Gives Reached (form.preferred_language == []) _ _ (λ _. pure-Gives Reached u r)
        λ _.
          bind-Gives _ Reached _ _
            (refuse_if-Gives (not (is_valid_preferred_language form.preferred_language))
              (text "Invalid preferred language.") url)
            λ _ valid. pure-Gives Reached _ (change u _ r (speaks (ground arith) refl))

  update_password-Gives :
      (u : User) → Reached u → Gives Reached (update_password app env form.password url u)
  unfolding update_password
  update_password-Gives u r =
      if-Gives Reached (form.password == []) _ _ (λ _. pure-Gives Reached u r)
        λ _.
          bind-Gives _ Reached _ _
            (accept-Gives (validate_password app form.password) (with_error "Invalid password: %s")
              url)
            λ _ valid. bind-Gives _ Reached _ _ (try-Gives (env.rand_read 16)) λ salt salted.
              bind-Gives _ Reached _ _ (try-Gives (app.scrypt_key form.password salt))
                λ hash hashed.
                  pure-Gives Reached _ (change u _ r (secured salt hash valid salted hashed refl))

  update_skin_model-Gives :
      (u : User) → Reached u → Gives Reached (update_skin_model form.skin_model u)
  unfolding update_skin_model
  update_skin_model-Gives u r =
      if-Gives Reached (form.skin_model == []) _ _ (λ _. pure-Gives Reached u r)
        λ _.
          if-Gives Reached (is_valid_skin_model form.skin_model) _ _
            (λ valid. pure-Gives Reached _ (change u _ r (modelled valid refl)))
            λ _ s. inr (bad_request, s, refl, refl, refl)

  open_texture-Gives :
      (kind : Kind) (download : Download) (texture : TextureForm)
      → Gives (λ _. Unit {0}) (open_texture kind download texture url)
  unfolding open_texture
  open_texture-Gives kind download texture s = elim (Option-cases texture.file) [
    | inl e ↦
        rw e
          (weaken-Gives _ _ (accept-Gives (download texture.url) (λ _. download_failed kind) url) s)
    | inr (opened, e) ↦ rw e (weaken-Gives _ _ (try-Gives opened) s)
  ]

  update_texture-Gives :
      (kind : Kind) (download : Download) (texture : TextureForm) (u : User)
      → Reached u
      → Gives (λ made. Reached made.0) (update_texture kind app download user texture url u)
  unfolding update_texture
  update_texture-Gives kind download texture u r =
      let R = λ (made : User × Option (Bytes × Bytes)). Reached made.0 in
      if-Gives R (is_some texture.file || not (texture.url == [])) _ _
        (λ _.
          bind-Gives _ R _ _
            (refuse_if-Gives (not (allowed kind app) && not user.is_admin) (not_allowed kind) url)
            λ _ may. bind-Gives _ R _ _ (open_texture-Gives kind download texture) λ reader _.
              bind-Gives _ R _ _
                (accept-Gives (validate kind app reader) (invalid_texture kind) url)
                λ _ valid. bind-Gives _ R _ _ (try-Gives (read_texture app reader)) λ read e.
                  pure-Gives R _ (
                    change u _ r (
                      textured kind reader read.0 read.1
                        (IsAllowed-test (allowed kind app) user may) valid e refl)))
        λ _.
          if-Gives R texture.delete _ _ (λ _. pure-Gives R _ (change u _ r (untextured kind refl)))
            λ _. pure-Gives R _ r

-- An edit that is not refused is a sequence of permitted changes.
pub edit_user-Gives :
    (app : App) (env : Env) (download : Download) (user : User) (form : UpdateForm) (url : Bytes)
    (old : User)
    → Gives
        (λ (edit : Edit). Changes app env user form old edit.0)
        (edit_user app env download user form url old)
unfolding edit_user
edit_user-Gives app env download user form url old =
    let R = Changes app env user form old in
    let E = λ (edit : Edit). R edit.0 in
    bind-Gives R E _ _ (update_player_name-Gives app env user form url old old unchanged) λ u₁ r₁.
      bind-Gives R E _ _ (update_fallback_player-Gives app env user form url old u₁ r₁) λ u₂ r₂.
        bind-Gives R E _ _ (update_language-Gives app env user form url old u₂ r₂) λ u₃ r₃.
          bind-Gives R E _ _ (update_password-Gives app env user form url old u₃ r₃) λ u₄ r₄.
            bind-Gives R E _ _ (update_skin_model-Gives app env user form url old u₄ r₄) λ u₅ r₅.
              bind-Gives (λ made. R made.0) E _ _
                (update_texture-Gives app env user form url old skin download form.skin u₅ r₅)
                λ made₆ r₆.
                  bind-Gives (λ made. R made.0) E _ _
                    (update_texture-Gives app env user form url old cape download form.cape made₆.0
                      r₆)
                    λ made₇ r₇. pure-Gives E _ r₇
