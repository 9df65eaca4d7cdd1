-- ===== src/Injector.antt =====
-- authlib_injector.go: what authlib-injector reads at the root of the API.
pub mod Domains
use drasl.Prelude.{Bool, true, List, [], ◌∷◌, ◌++◌, map, Bytes, codes, if◌then◌else◌}
use drasl.Util.{contains}
use drasl.Errors.{Result, ok, err, ◌>>=◌}
use drasl.App.{App}
use drasl.Config.Types.{FallbackApiServer}

-- One domain of a server, unless it is there already.
unfoldable pub add_skin_domain : List Bytes → Bytes → List Bytes
unfolding contains
add_skin_domain skin_domains skin_domain =
    if contains skin_domains skin_domain then skin_domains else skin_domains ++ (skin_domain ∷ [])

unfoldable pub add_skin_domains : List Bytes → List Bytes → List Bytes
unfolding add_skin_domain
add_skin_domains skin_domains [] = skin_domains
add_skin_domains skin_domains (d ∷ more) = add_skin_domains (add_skin_domain skin_domains d) more

unfoldable pub add_servers : List Bytes → List FallbackApiServer → List Bytes
unfolding add_skin_domains
add_servers skin_domains [] = skin_domains
add_servers skin_domains (server ∷ servers) =
    add_servers (add_skin_domains skin_domains server.skin_domains) servers

unfoldable pub skin_domains_of : App → List Bytes
unfolding add_servers
skin_domains_of app = add_servers (app.config.domain ∷ []) app.config.fallback_api_servers

pub record AuthlibInjectorResponse : Type 0 where
  pub implementation_name : Bytes
  pub homepage : Bytes
  pub register : Bytes
  pub server_name : Bytes
  pub feature_enable_profile_key : Bool
  pub signature_publickey : Bytes
  pub signature_publickeys : List Bytes
  pub skin_domains : List Bytes

-- GET /authlib-injector, as it is made when the server starts; `serialize_key` is the PEM form of a
-- public key, and the version, which the build sets, is left out. A URL that cannot be joined
-- panics.
unfoldable pub authlib_injector_root :
    App → (Bytes → Bytes) → Bytes → Result AuthlibInjectorResponse
unfolding skin_domains_of
authlib_injector_root app serialize_key public_key = do
  register ← app.url_join_path app.front_end_url (codes "drasl/registration")
  ok (record {
    implementation_name = codes "Drasl";
    homepage = app.front_end_url;
    register = register;
    server_name = app.config.instance_name;
    feature_enable_profile_key = true;
    signature_publickey = serialize_key public_key;
    signature_publickeys = map serialize_key app.profile_property_keys;
    skin_domains = skin_domains_of app;
  })
