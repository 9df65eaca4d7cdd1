-- ===== src/Config/Clean/Sound.antt =====
-- What a cleaned configuration is.
use drasl.Prelude.{
  none, some, ◌≡◌, ◌≢◌, ◌⊎◌, refl, ap, subst, Bool, true, false, not, Option, List, [], ◌∷◌, inl,
  inr, arith, Bytes, ◌==◌, eq_iff, All, Bool-cases, if◌then◌else◌,
}
use drasl.Errors.{Error, text, with_string, with_error, with_both, Result, ok, bind-ok}
use drasl.App.{Url}
use drasl.Config.Types.{Config, FallbackApiServer, RegistrationExistingPlayerConfig}
use drasl.Model.Validate.{is_valid_preferred_language}
use drasl.Config.Clean.Urls.{IsCleanUrl, clean_url-IsCleanUrl}
use drasl.Config.Clean.{
  clean_url, must_be, existing_rest, clean_existing, clean_domains, clean_server, clean_servers,
  open_directory, clean_config,
}

must_be-true :
    (test : Bool) (message : Error) (u : Unit) → must_be test message ≡ ok u → test ≡ true
unfolding must_be
must_be-true test message u h = ground arith

set :
    (name : Bytes) (message : Error) (u : Unit)
    → must_be (not (name == [])) message ≡ ok u
    → name ≢ []
set name message u h e =
    let t = must_be-true (not (name == [])) message u h in
    let same = (eq_iff name []).1 e in cc (ap not same, t)

-- The names and domains of a fallback server are set, its URLs are clean, and nothing else changes.
pub record IsCleanServer (parse : Bytes → Result Url) (given cleaned : FallbackApiServer)
    : Type 0 where
  pub nickname_set : given.nickname ≢ []
  pub account : IsCleanUrl parse given.account_url cleaned.account_url
  pub session : IsCleanUrl parse given.session_url cleaned.session_url
  pub services : IsCleanUrl parse given.services_url cleaned.services_url
  pub domains_set : All (λ (d : Bytes). d ≢ []) given.skin_domains
  pub kept : cleaned ≡ record given {
    account_url = cleaned.account_url;
    session_url = cleaned.session_url;
    services_url = cleaned.services_url;
  }

abbrev pub AreCleanServers :
    (Bytes → Result Url) → List FallbackApiServer → List FallbackApiServer → Type 0
AreCleanServers parse [] [] = Unit
AreCleanServers parse [] (_ ∷ _) = ⊥
AreCleanServers parse (_ ∷ _) [] = ⊥
AreCleanServers parse (given ∷ servers) (cleaned ∷ servers') =
    IsCleanServer parse given cleaned × AreCleanServers parse servers servers'

clean_domains-All :
    (nickname : Bytes) (domains : List Bytes)
    → clean_domains nickname domains ≡ ok tt
    → All (λ (d : Bytes). d ≢ []) domains
unfolding clean_domains
clean_domains-All nickname [] h = tt
clean_domains-All nickname (d ∷ domains) h =
    (ground (arith, eq_iff d []), clean_domains-All nickname domains (ground arith))

clean_server-IsCleanServer :
    (parse : Bytes → Result Url) (server server' : FallbackApiServer)
    → clean_server parse server ≡ ok server'
    → IsCleanServer parse server server'
unfolding clean_server must_be
clean_server-IsCleanServer parse server server' h =
    let (_, e₁, h₁) =
      bind-ok
        (must_be (not (server.nickname == [])) (text "FallbackAPIServer Nickname must be set")) _
        server' h in
    let (account_url, e₂, h₂) =
      bind-ok
        (clean_url parse server.account_url (text "FallbackAPIServer AccountURL must be set")
          (with_both "Invalid FallbackAPIServer AccountURL %s: %s" server.account_url))
        _ server' h₁ in
    let (session_url, e₃, h₃) =
      bind-ok
        (clean_url parse server.session_url (text "FallbackAPIServer SessionURL must be set")
          (with_both "Invalid FallbackAPIServer SessionURL %s: %s" server.services_url))
        _ server' h₂ in
    let (services_url, e₄, h₄) =
      bind-ok
        (clean_url parse server.services_url (text "FallbackAPIServer ServicesURL must be set")
          (with_both "Invalid FallbackAPIServer ServicesURL %s: %s" server.services_url))
        _ server' h₃ in
    let (_, e₅, h₅) = bind-ok (clean_domains server.nickname server.skin_domains) _ server' h₄ in
    let result : record server {
      account_url = account_url;
      session_url = session_url;
      services_url = services_url;
    }
        ≡ server' =
      cc h₅ in
    subst (IsCleanServer parse server) result (record {
      nickname_set = set server.nickname _ tt e₁;
      account = clean_url-IsCleanUrl parse server.account_url account_url _ _ e₂;
      session = clean_url-IsCleanUrl parse server.session_url session_url _ _ e₃;
      services = clean_url-IsCleanUrl parse server.services_url services_url _ _ e₄;
      domains_set = clean_domains-All server.nickname server.skin_domains e₅;
      kept = refl;
    })

clean_servers-AreCleanServers :
    (parse : Bytes → Result Url) (servers servers' : List FallbackApiServer)
    → clean_servers parse servers ≡ ok servers'
    → AreCleanServers parse servers servers'
unfolding clean_servers
clean_servers-AreCleanServers parse [] servers' h =
    let same : [] ≡ servers' = cc h in subst (AreCleanServers parse []) same tt
clean_servers-AreCleanServers parse (server ∷ servers) servers' h =
    let (server', e₁, h₁) = bind-ok (clean_server parse server) _ servers' h in
    let (rest, e₂, h₂) = bind-ok (clean_servers parse servers) _ servers' h₁ in
    let same : server' ∷ rest ≡ servers' = cc h₂ in
    subst (AreCleanServers parse (server ∷ servers)) same (
      clean_server-IsCleanServer parse server server' e₁,
      clean_servers-AreCleanServers parse servers rest e₂,
    )

-- Where registration from another server is allowed, that server's name is set, its URLs are clean,
-- and nothing else changes.
pub record IsCleanExisting (parse : Bytes → Result Url)
    (given cleaned : RegistrationExistingPlayerConfig) : Type 0 where
  pub nickname_set : given.nickname ≢ []
  pub session : IsCleanUrl parse given.session_url cleaned.session_url
  pub account : IsCleanUrl parse given.account_url cleaned.account_url
  pub kept :
      cleaned
      ≡ record given { session_url = cleaned.session_url; account_url = cleaned.account_url }

clean_existing-IsCleanExisting :
    (parse : Bytes → Result Url) (existing existing' : RegistrationExistingPlayerConfig)
    → clean_existing parse existing ≡ ok existing'
    → ((existing.allow ≡ false) × (existing' ≡ existing))
      ⊎ ((existing.allow ≡ true) × IsCleanExisting parse existing existing')
unfolding clean_existing existing_rest
clean_existing-IsCleanExisting parse existing existing' h = elim (Bool-cases existing.allow) [
  | inr off ↦ inl (off, ground arith)
  | inl on ↦
      let h' =
        subst (λ b. (if not b then ok existing else existing_rest parse existing) ≡ ok existing') on
          h in
      let (_, e₁, h₁) =
        bind-ok
          (must_be (not (existing.nickname == []))
            (text "RegistrationExistingPlayer.Nickname must be set"))
          _ existing' h' in
      let (session_url, e₂, h₂) =
        bind-ok
          (clean_url parse existing.session_url
            (text
              "RegistrationExistingPlayer.SessionURL must be set. Example: https://sessionserver.mojang.com")
            (with_error "Invalid RegistrationExistingPlayer.SessionURL: %s"))
          _ existing' h₁ in
      let (account_url, e₃, h₃) =
        bind-ok
          (clean_url parse existing.account_url
            (text
              "RegistrationExistingPlayer.AccountURL must be set. Example: https://api.mojang.com")
            (with_error "Invalid RegistrationExistingPlayer.AccountURL: %s"))
          _ existing' h₂ in
      let result : record existing { session_url = session_url; account_url = account_url }
          ≡ existing' =
        cc h₃ in
      inr (
        on,
        subst (IsCleanExisting parse existing) result (record {
          nickname_set = set existing.nickname _ tt e₁;
          session = clean_url-IsCleanUrl parse existing.session_url session_url _ _ e₂;
          account = clean_url-IsCleanUrl parse existing.account_url account_url _ _ e₃;
          kept = refl;
        }),
      )
]

-- A configuration that was given, and what is accepted of it
pub record IsClean (parse : Bytes → Result Url) (open_dir : Bytes → Option Error)
    (given cleaned : Config) : Type 0 where
  pub base : IsCleanUrl parse given.base_url cleaned.base_url
  pub language_valid : is_valid_preferred_language given.default_preferred_language ≡ true
  pub domain_set : given.domain ≢ []
  pub instance_name_set : given.instance_name ≢ []
  pub listen_address_set : given.listen_address ≢ []
  pub directory_opens : open_dir given.data_directory ≡ none
  pub existing :
      ((given.registration_existing_player.allow ≡ false)
        × (cleaned.registration_existing_player ≡ given.registration_existing_player))
      ⊎ ((given.registration_existing_player.allow ≡ true)
          × IsCleanExisting parse given.registration_existing_player
              cleaned.registration_existing_player)
  pub servers : AreCleanServers parse given.fallback_api_servers cleaned.fallback_api_servers
  pub kept : cleaned ≡ record given {
    base_url = cleaned.base_url;
    registration_existing_player = cleaned.registration_existing_player;
    fallback_api_servers = cleaned.fallback_api_servers;
  }

open_directory-none : (opened : Option Error) → open_directory opened ≡ ok tt → opened ≡ none
unfolding open_directory
open_directory-none none h = refl
open_directory-none (some e) h = absurd (cc h)

-- In a configuration that is accepted the language is a valid one, the data directory opens, and the
-- domain, the name, the address and the domains of skins are set. The base URL and the URLs of every
-- server that is used are set and valid, and come out without the slashes at their ends. Nothing
-- else changes.
pub clean_config-IsClean :
    (parse : Bytes → Result Url) (open_dir : Bytes → Option Error) (config config' : Config)
    → clean_config parse open_dir config ≡ ok config'
    → IsClean parse open_dir config config'
unfolding clean_config
clean_config-IsClean parse open_dir config config' h =
    let (base_url, e₁, h₁) =
      bind-ok
        (clean_url parse config.base_url
          (text "BaseURL must be set. Example: https://drasl.example.com")
          (with_error "Invalid BaseURL: %s"))
        _ config' h in
    let (_, e₂, h₂) =
      bind-ok
        (must_be (is_valid_preferred_language config.default_preferred_language)
          (with_string "Invalid DefaultPreferredLanguage %s" config.default_preferred_language))
        _ config' h₁ in
    let (_, e₃, h₃) =
      bind-ok
        (must_be (not (config.domain == []))
          (text "Domain must be set to a valid fully qualified domain name"))
        _ config' h₂ in
    let (_, e₄, h₄) =
      bind-ok (must_be (not (config.instance_name == [])) (text "InstanceName must be set")) _
        config' h₃ in
    let (_, e₅, h₅) =
      bind-ok
        (must_be (not (config.listen_address == []))
          (text "ListenAddress must be set. Example: 0.0.0.0:25585"))
        _ config' h₄ in
    let (_, e₆, h₆) = bind-ok (open_directory (open_dir config.data_directory)) _ config' h₅ in
    let (existing, e₇, h₇) =
      bind-ok (clean_existing parse config.registration_existing_player) _ config' h₆ in
    let (servers, e₈, h₈) =
      bind-ok (clean_servers parse config.fallback_api_servers) _ config' h₇ in
    let result : record config {
      base_url = base_url;
      registration_existing_player = existing;
      fallback_api_servers = servers;
    }
        ≡ config' =
      cc h₈ in
    subst (IsClean parse open_dir config) result (record {
      base = clean_url-IsCleanUrl parse config.base_url base_url _ _ e₁;
      language_valid = must_be-true _ _ tt e₂;
      domain_set = set config.domain _ tt e₃;
      instance_name_set = set config.instance_name _ tt e₄;
      listen_address_set = set config.listen_address _ tt e₅;
      directory_opens = open_directory-none (open_dir config.data_directory) e₆;
      existing =
          clean_existing-IsCleanExisting parse config.registration_existing_player existing e₇;
      servers = clean_servers-AreCleanServers parse config.fallback_api_servers servers e₈;
      kept = refl;
    })
