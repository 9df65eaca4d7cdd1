-- ===== src/Examples/Config.antt =====
-- A configuration that is accepted.
use drasl.Prelude.{◌≡◌, refl, false, Option, none, [], ◌∷◌, Bytes, codes, ◌==◌}
use drasl.Errors.{Error, ok}
use drasl.Config.Types.{Config, FallbackApiServer}
use drasl.Config.Clean.{
  clean_config, clean_url, clean_servers, clean_server, clean_domains, clean_existing, trim_right,
  must_be,
}
use drasl.Config.Clean.Sound.{IsClean, clean_config-IsClean}
use drasl.Model.Validate.{is_valid_preferred_language}
use drasl.Examples.Setup.{config, toy}

abbrev server : FallbackApiServer
server = record {
  nickname = codes "Mojang";
  session_url = codes "https://s/";
  account_url = codes "https://a/";
  services_url = codes "https://v";
  skin_domains = codes "d" ∷ [];
  cache_ttl_seconds = 60;
  deny_unknown_users = false;
}

abbrev given : Config
given = record config {
  base_url = codes "https://drasl/";
  domain = codes "drasl";
  fallback_api_servers = server ∷ [];
}

abbrev cleaned : Config
cleaned = record given {
  base_url = codes "https://drasl";
  fallback_api_servers =
      record server { session_url = codes "https://s"; account_url = codes "https://a" } ∷ [];
}

abbrev opens : Bytes → Option Error
opens = λ _. none

clean_run : clean_config toy.url_parse opens given ≡ ok cleaned
unfolding clean_config clean_url clean_servers clean_server clean_domains clean_existing trim_right
    must_be is_valid_preferred_language ◌==◌
clean_run = refl

clean_config-IsClean_example : IsClean toy.url_parse opens given cleaned
clean_config-IsClean_example = clean_config-IsClean toy.url_parse opens given cleaned clean_run
