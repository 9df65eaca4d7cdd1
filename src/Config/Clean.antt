-- ===== src/Config/Clean.antt =====
-- `CleanConfig` of config.go. Parsing a URL and opening a directory are parameters.
pub mod Urls
pub mod Sound
use drasl.Prelude.{
  ℕ, Bool, true, false, ◌&&◌, not, Option, none, some, List, [], ◌∷◌, Bytes, ◌==◌, nat_eq,
  if◌then◌else◌,
}
use drasl.Errors.{Error, text, with_string, with_error, with_both, Result, ok, err, ◌>>=◌, ◌>>◌}
use drasl.App.{Url}
use drasl.Config.Types.{Config, FallbackApiServer, RegistrationExistingPlayerConfig}
use drasl.Model.Validate.{is_valid_preferred_language}

-- `strings.TrimRight(s, "/")`
unfoldable pub trim_right : Bytes → Bytes
trim_right [] = []
trim_right (b ∷ s) = let rest = trim_right s in if nat_eq b b'/' && rest == [] then [] else b ∷ rest

-- A URL that must be set and valid, without the slashes at its end
unfoldable pub clean_url : (Bytes → Result Url) → Bytes → Error → (Error → Error) → Result Bytes
unfolding trim_right
clean_url parse url blank invalid =
    if url == []
    then err blank
    else elim (parse url) [ err e ↦ err (invalid e) | ok _ ↦ ok (trim_right url) ]

unfoldable pub must_be : Bool → Error → Result (Unit {0})
must_be test message = if test then ok tt else err message

existing_rest :
    (Bytes → Result Url)
    → RegistrationExistingPlayerConfig
    → Result RegistrationExistingPlayerConfig
unfolding clean_url must_be
existing_rest parse existing = do
  must_be (not (existing.nickname == [])) (text "RegistrationExistingPlayer.Nickname must be set")
  session_url ←
      clean_url parse existing.session_url
        (text
          "RegistrationExistingPlayer.SessionURL must be set. Example: https://sessionserver.mojang.com")
        (with_error "Invalid RegistrationExistingPlayer.SessionURL: %s")
  account_url ←
      clean_url parse existing.account_url
        (text "RegistrationExistingPlayer.AccountURL must be set. Example: https://api.mojang.com")
        (with_error "Invalid RegistrationExistingPlayer.AccountURL: %s")
  ok (record existing { session_url = session_url; account_url = account_url })

unfoldable pub clean_existing :
    (Bytes → Result Url)
    → RegistrationExistingPlayerConfig
    → Result RegistrationExistingPlayerConfig
unfolding existing_rest
clean_existing parse existing =
    if not existing.allow then ok existing else existing_rest parse existing

unfoldable pub clean_domains : Bytes → List Bytes → Result (Unit {0})
clean_domains nickname [] = ok tt
clean_domains nickname (skin_domain ∷ domains) =
    let rest = clean_domains nickname domains in
    if skin_domain == []
    then err (with_string "SkinDomain can't be blank for FallbackAPIServer \"%s\"" nickname)
    else rest

-- The message on the session URL shows the services URL.
unfoldable pub clean_server : (Bytes → Result Url) → FallbackApiServer → Result FallbackApiServer
unfolding clean_url must_be clean_domains
clean_server parse server = do
  must_be (not (server.nickname == [])) (text "FallbackAPIServer Nickname must be set")
  account_url ←
      clean_url parse server.account_url (text "FallbackAPIServer AccountURL must be set")
        (with_both "Invalid FallbackAPIServer AccountURL %s: %s" server.account_url)
  session_url ←
      clean_url parse server.session_url (text "FallbackAPIServer SessionURL must be set")
        (with_both "Invalid FallbackAPIServer SessionURL %s: %s" server.services_url)
  services_url ←
      clean_url parse server.services_url (text "FallbackAPIServer ServicesURL must be set")
        (with_both "Invalid FallbackAPIServer ServicesURL %s: %s" server.services_url)
  clean_domains server.nickname server.skin_domains
  ok (record server {
    account_url = account_url;
    session_url = session_url;
    services_url = services_url;
  })

unfoldable pub clean_servers :
    (Bytes → Result Url) → List FallbackApiServer → Result (List FallbackApiServer)
unfolding clean_server
clean_servers parse [] = ok []
clean_servers parse (server ∷ servers) = do
  server' ← clean_server parse server
  servers' ← clean_servers parse servers
  ok (server' ∷ servers')

open_directory : Option Error → Result (Unit {0})
open_directory none = ok tt
open_directory (some e) = err (with_error "Couldn't open DataDirectory: %s" e)

unfoldable pub clean_config : (Bytes → Result Url) → (Bytes → Option Error) → Config → Result Config
unfolding clean_url must_be clean_existing clean_servers open_directory
clean_config parse open_dir config = do
  base_url ←
      clean_url parse config.base_url
        (text "BaseURL must be set. Example: https://drasl.example.com")
        (with_error "Invalid BaseURL: %s")
  must_be (is_valid_preferred_language config.default_preferred_language)
      (with_string "Invalid DefaultPreferredLanguage %s" config.default_preferred_language)
  must_be (not (config.domain == []))
      (text "Domain must be set to a valid fully qualified domain name")
  must_be (not (config.instance_name == [])) (text "InstanceName must be set")
  must_be (not (config.listen_address == []))
      (text "ListenAddress must be set. Example: 0.0.0.0:25585")
  open_directory (open_dir config.data_directory)
  existing ← clean_existing parse config.registration_existing_player
  servers ← clean_servers parse config.fallback_api_servers
  ok (record config {
    base_url = base_url;
    registration_existing_player = existing;
    fallback_api_servers = servers;
  })
