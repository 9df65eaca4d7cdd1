-- ===== src/Examples/Pages.antt =====
-- The pages of the web front end at concrete inputs.
use drasl.Prelude.{◌≡◌, refl, true, false, none, some, [], ◌∷◌, codes, ◌==◌}
use drasl.Errors.{ok}
use drasl.Flow.{run}
use drasl.App.{App, Env, Image, Texture}
use drasl.Model.Types.{User}
use drasl.Model.Ids.{uuid_to_id}
use drasl.Database.Memory.{memory, memory-IsLawful}
use drasl.Front.Types.{Visit, ProfileView, ChallengeView, rendered, admin_view, profile_view, Site}
use drasl.Front.Challenge.{get_challenge, embed_challenge, verify_skin}
use drasl.Front.Pages.{PngEncode, front_admin, front_profile, make_challenge_view}
use drasl.Front.Pages.Shown.{HasSession, IsVisible, front_profile-IsVisible}
use drasl.Front.Pages.Solvable.{make_challenge_view-verify_skin}
use drasl.Examples.Setup.{app, env, alice, tables}

abbrev admin : User
admin = record alice { is_admin = true; browser_token = some (codes "tok") }

abbrev site : Site
site = record {
  world = record { tables = record tables { users = admin ∷ [] }; skins = []; capes = [] };
  cookies = [];
}

abbrev visit : Visit
visit = record {
  form_return_url = [];
  query_return_url = [];
  query_username = [];
  browser_token = some (codes "tok");
}

admin_result :
    run (front_admin app memory visit) site ≡ (rendered (admin_view admin (admin ∷ []) []), site)
unfolding front_admin memory ◌==◌
admin_result = refl

abbrev view : ProfileView
view = record {
  user = admin;
  profile_user = admin;
  profile_user_id = codes "aaaaaaaaaaaaaaaaaaaaaaaaaaaaaaaa";
  skin_url = none;
  cape_url = none;
  admin_view = false;
}

profile_result : run (front_profile app memory visit []) site ≡ (rendered (profile_view view), site)
unfolding front_profile memory uuid_to_id ◌==◌
profile_result = refl

front_profile-IsVisible_example : HasSession visit site view.user × IsVisible site view
front_profile-IsVisible_example =
    front_profile-IsVisible app memory visit [] site site view memory-IsLawful profile_result

-- The picture with the challenge of a user name and token, where every sum is the same
abbrev blank : Image
blank = λ x y. (0, 0, 0, 0)

abbrev sums : App
sums = record app {
  externals = record app.externals {
    blake3_sum512 = λ b. codes "0123456789abcdef0123456789abcdef0123456789abcdef0123456789abcdef";
  };
}

abbrev shown : Image
shown = embed_challenge (get_challenge sums (codes "bob") (codes "ch")) blank

abbrev encode : PngEncode
encode = λ img. ok (codes "png")

abbrev solving : App
solving = record app { externals = record sums.externals { png_decode = λ body. ok (some shown) } }

abbrev fetching : Env
fetching = record env { http_get = λ url. ok (record { status = 200; body = codes "png" }) }

abbrev challenge : ChallengeView
challenge = record {
  user = none;
  username = codes "bob";
  skin_base64 = codes "png";
  skin_filename = codes "bob-challenge.png";
  challenge_token = codes "ch";
  invite_code = [];
}

abbrev solved : Texture
solved = record { url = codes "https://skin"; model = none }

make_challenge_view-verify_skin_example :
    verify_skin solving fetching (codes "bob") (codes "ch") (some solved) ≡ ok tt
unfolding make_challenge_view
make_challenge_view-verify_skin_example =
    make_challenge_view-verify_skin solving fetching encode blank none (codes "bob") [] (codes "ch")
      (codes "png") challenge solved 200
      (record {
        decode-encode = λ body p. (shown, refl, λ x y low high. refl);
        base64-inverse = λ b. refl;
        sum_length = λ b. refl;
      })
      refl refl refl
