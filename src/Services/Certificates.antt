-- ===== src/Services/Certificates.antt =====
-- POST /player/certificates of services.go: a new key pair for a player, signed by the instance.
pub mod Width
use drasl.Prelude.{
  ℕ, zero, suc, ◌+◌, ◌*◌, ◌-◌, ◌/◌, ◌%◌, ◌^◌, Bool, true, false, ◌&&◌, not, Option, none, some,
  List, [], ◌∷◌, ◌++◌, Bytes, codes, nat_eq, leb, ltb, keep, length, if◌then◌else◌,
}
use drasl.Util.{wrap}
use drasl.Errors.{Error, Result, ok, err, ◌>>=◌, ◌>>◌}
use drasl.Flow.{Exec, lift, pure, next}
use drasl.Http.{Reply, failed, json, status_ok}
use drasl.App.{App, Env}
use drasl.Model.Types.{User, second, distant_future}
use drasl.Model.Ids.{uuid_to_id}
use drasl.Database.Tables.{Tables, Database}
use drasl.Services.{Call, with_bearer_authentication}

-- A new key of `rsa.GenerateKey`: its public key in DER form, and the PEM forms of the private and
-- of the public key.
pub record GeneratedKey : Type 0 where
  pub public_der : Bytes
  pub private_pem : Bytes
  pub public_pem : Bytes

-- crypto/rsa with crypto/x509 and encoding/pem, fmt's "%d", and `Format(time.RFC3339Nano)`
pub record KeyTools : Type 0 where
  pub generate : Result GeneratedKey
  pub format_int : ℕ → Bytes
  pub format_time : ℕ → Bytes

pub record PlayerCertificatesResponse : Type 0 where
  pub private_key : Bytes
  pub public_key : Bytes
  pub public_key_signature : Bytes
  pub public_key_signature_v2 : Bytes
  pub expires_at : Bytes
  pub refreshed_after : Bytes

unfoldable pub expiry : App → Env → ℕ
expiry app env =
    if ltb 0 app.config.token_stale_sec
    then env.now + app.config.token_stale_sec * second
    else distant_future

abbrev milli : ℕ → ℕ
milli time = time / 1000000

-- The text that the first signature is of. `Wrap` ends within its fuel, so `none` stands for nothing.
unfoldable pub signed_data : App → KeyTools → ℕ → Bytes → Option Bytes
signed_data app tools expires_at_milli public_der =
    elim (wrap (keep (λ c. not (nat_eq c b'\n')) (app.base64_encode public_der)) 76) [
      | none ↦ none
      | some wrapped ↦ some (
          tools.format_int expires_at_milli
          ++ (codes "-----BEGIN RSA PUBLIC KEY-----\n"
              ++ (wrapped ++ codes "\n-----END RSA PUBLIC KEY-----\n")))
    ]

-- A digit of `SetString(userId, 16)`, with letters of either case
unfoldable pub hex_value : ℕ → Option ℕ
hex_value c =
    if leb b'0' c && leb c b'9'
    then some (c - b'0')
    else if leb b'a' c && leb c b'f'
    then some (c - b'a' + 10)
    else if leb b'A' c && leb c b'F'
    then some (c - b'A' + 10)
    else none

-- The number behind the digits. What a text that is no number leaves is undefined, and zero here.
unfoldable pub hex_number : ℕ → Bytes → ℕ
unfolding hex_value
hex_number acc [] = acc
hex_number acc (c ∷ s) = elim (hex_value c) [ none ↦ 0 | some d ↦ hex_number (acc * 16 + d) s ]

-- `big.Int.Bytes`: the bytes of a number from the first that is not zero. Each pass takes a byte, so
-- as many passes as digits are enough.
unfoldable pub big_bytes : ℕ → ℕ → Bytes → Bytes
big_bytes zero n acc = acc
big_bytes (suc fuel) n acc =
    let more = big_bytes fuel (n / 256) ((n % 256) ∷ acc) in if nat_eq n 0 then acc else more

-- `PutUint64`: the last so many bytes of a number
unfoldable pub fixed_bytes : ℕ → ℕ → Bytes → Bytes
fixed_bytes zero n acc = acc
fixed_bytes (suc count) n acc = fixed_bytes count (n / 256) ((n % 256) ∷ acc)

unfoldable pub user_bytes : Bytes → Bytes
unfolding hex_number big_bytes
user_bytes id = big_bytes (length id) (hex_number 0 id) []

-- What the second signature is of
unfoldable pub signed_data_v2 : Bytes → ℕ → Bytes → Bytes
unfolding user_bytes fixed_bytes
signed_data_v2 id expires_at_milli public_der =
    user_bytes id ++ (fixed_bytes 8 expires_at_milli [] ++ public_der)

abbrev from_some : Option Bytes → Bytes
from_some none = []
from_some (some b) = b

-- The two signatures, empty if keys are not signed
unfoldable pub sign_key : App → KeyTools → User → ℕ → Bytes → Result (Bytes × Bytes)
unfolding signed_data signed_data_v2
sign_key app tools user expires_at_milli public_der =
    if not app.config.sign_public_keys then ok ([], []) else (do
      signature ← app.sign_sha1 (from_some (signed_data app tools expires_at_milli public_der))
      id ← uuid_to_id user.uuid
      signature_v2 ← app.sign_sha1 (signed_data_v2 id expires_at_milli public_der)
      ok (app.base64_encode signature, app.base64_encode signature_v2))

unfoldable pub player_certificates : App → Env → KeyTools → User → Result PlayerCertificatesResponse
unfolding expiry sign_key
player_certificates app env tools user = do
  key ← tools.generate
  (signature, signature_v2) ← sign_key app tools user (milli (expiry app env)) key.public_der
  ok (record {
    private_key = key.private_pem;
    public_key = key.public_pem;
    public_key_signature = signature;
    public_key_signature_v2 = signature_v2;
    expires_at = tools.format_time (expiry app env);
    refreshed_after = tools.format_time env.now;
  })

abbrev certificates_reply : Result PlayerCertificatesResponse → Reply PlayerCertificatesResponse
certificates_reply (ok res) = json status_ok res
certificates_reply (err e) = failed e

unfoldable pub services_player_certificates :
    App
    → Env
    → Database
    → KeyTools
    → Call
    → Exec Tables (Reply PlayerCertificatesResponse) (Reply PlayerCertificatesResponse)
unfolding with_bearer_authentication player_certificates
services_player_certificates app env db tools req =
    with_bearer_authentication app env db (λ t. t) req
      (λ user t. (next (certificates_reply (player_certificates app env tools user)), t))
