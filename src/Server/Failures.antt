-- ===== src/Server/Failures.antt =====
-- What a client sees of errors and limits.
use drasl.Prelude.{
  ◌∙◌, List, [], ◌∷◌, any, ◌&&◌, ℕ, ◌≡◌, refl, ◌⊎◌, inl, inr, ◌||◌, true, false, Option, none, some,
  arith, Bytes, ◌==◌, nat_eq, Bool-cases, All, Bool, if◌then◌else◌,
}
use drasl.Util.{contains}
use drasl.Util.Contains.{All-contains}
use drasl.Errors.{text}
use drasl.App.{App}
use drasl.Front.Types.{Visit}
use drasl.Front.Access.{get_return_url}
use drasl.Server.{
  is_yggdrasil_path, segment, after_slash, Failure, http_error, other_error, ErrorPage, json_page,
  text_page, internal_json, internal_text, shown_code, handle_error, limited_paths,
  skips_rate_limit, denied_page, deny,
}

-- The answer to every error that is not shown
abbrev pub internal_page : Bytes → ErrorPage
internal_page path = if is_yggdrasil_path path then internal_json else internal_text

abbrev pub status_of : ErrorPage → ℕ
status_of (json_page code _) = code
status_of (text_page code _) = code

-- The codes of echo that are told to a client: not found, request too large, too many requests, and
-- to a client of the APIs also method not allowed.
abbrev pub told_codes : Bytes → List ℕ
told_codes path =
    if is_yggdrasil_path path then 404 ∷ 405 ∷ 413 ∷ 429 ∷ [] else 404 ∷ 413 ∷ 429 ∷ []

abbrev pub is_told_code : Bytes → ℕ → Bool
is_told_code path code = any (λ told. nat_eq code told) (told_codes path)

-- A page of the web front end shows the message, so there has to be one.
abbrev pub is_told : Bytes → Failure → Bool
is_told path (http_error code (some _)) = is_told_code path code
is_told path (http_error code none) = is_yggdrasil_path path && is_told_code path code
is_told path (other_error e) = false

-- The answer is the fixed page for errors of the server, and the error is none that is told.
abbrev pub IsHidden : Bytes → Failure → Type 0
IsHidden path failure =
    (handle_error path failure ≡ internal_page path) × (is_told path failure ≡ false)

-- The answer has the code of an error of echo that is told.
abbrev pub HasCode : Bytes → Failure → Type 0
HasCode path failure =
    (code : ℕ) × (message : Option Bytes) × (failure ≡ http_error code message)
    × (is_told path failure ≡ true)
    × (status_of (handle_error path failure) ≡ code)

is_told_code-api :
    (path : Bytes) (code : ℕ)
    → is_yggdrasil_path path ≡ true
    → is_told_code path code ≡ (shown_code code || nat_eq code 405)
is_told_code-api path code y = rw y (ground arith)

is_told_code-front :
    (path : Bytes) (code : ℕ)
    → is_yggdrasil_path path ≡ false
    → is_told_code path code ≡ shown_code code
is_told_code-front path code n = rw n (ground arith)

is_told-api :
    (path : Bytes) (code : ℕ) (message : Option Bytes)
    → is_yggdrasil_path path ≡ true
    → is_told path (http_error code message) ≡ (shown_code code || nat_eq code 405)
is_told-api path code none y = let told = is_told_code-api path code y in ground arith
is_told-api path code (some message) y = is_told_code-api path code y

handle_error-api :
    (path : Bytes) (code : ℕ) (message : Option Bytes)
    → is_yggdrasil_path path ≡ true
    → IsHidden path (http_error code message) ⊎ HasCode path (http_error code message)
unfolding handle_error
handle_error-api path code message y =
    let told = is_told-api path code message y in
    elim (Bool-cases (shown_code code || nat_eq code 405)) [
      | inl shown ↦ inr (code, message, refl, told ∙ shown, rw (y, shown) refl)
      | inr hidden ↦ inl (rw (y, hidden) refl, told ∙ hidden)
    ]

handle_error-front :
    (path : Bytes) (code : ℕ) (message : Option Bytes)
    → is_yggdrasil_path path ≡ false
    → IsHidden path (http_error code message) ⊎ HasCode path (http_error code message)
unfolding handle_error
handle_error-front path code none n = inl (rw n refl, rw n refl)
handle_error-front path code (some message) n =
    let told = is_told_code-front path code n in
    elim (Bool-cases (shown_code code)) [
      | inl shown ↦ inr (code, some message, refl, told ∙ shown, rw (n, shown) refl)
      | inr hidden ↦ inl (rw (n, hidden) refl, told ∙ hidden)
    ]

-- An error is answered with the fixed page for errors of the server, and then it is no error of echo
-- with a message and the code 404, 413 or 429, and on a path of the APIs no error of echo with one
-- of these codes or 405. Or it is such an error, and the answer has its code.
pub handle_error-status :
    (path : Bytes) (failure : Failure) → IsHidden path failure ⊎ HasCode path failure
unfolding handle_error
handle_error-status path (other_error e) =
    inl (elim (Bool-cases (is_yggdrasil_path path)) [ inl y ↦ rw y refl | inr n ↦ rw n refl ], refl)
handle_error-status path (http_error code message) = elim (Bool-cases (is_yggdrasil_path path)) [
  | inl y ↦ handle_error-api path code message y
  | inr n ↦ handle_error-front path code message n
]

limited_pages : All (λ p. is_yggdrasil_path p ≡ false) limited_paths
unfolding is_yggdrasil_path segment after_slash ◌==◌
limited_pages = (refl, (refl, (refl, (refl, (refl, (refl, tt))))))

-- A request that the rate limit denies is one of a page: it is answered with a message and a
-- redirection to the return URL, never with an error of the APIs.
pub deny-limited :
    (app : App) (path : Bytes) (visit : Visit)
    → skips_rate_limit path ≡ false
    → deny app path visit
      ≡ denied_page (text "Too many requests. Try again later.") (get_return_url app visit)
unfolding deny skips_rate_limit
deny-limited app path visit h =
    let listed : contains limited_paths path ≡ true = ground arith in
    let page =
      All-contains (λ (p : Bytes). is_yggdrasil_path p ≡ false) limited_paths path limited_pages
        listed in
    rw page refl
