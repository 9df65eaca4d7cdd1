-- ===== src/Textures/Bounds.antt =====
-- What an accepted upload is.
use Prim.Native.Nat.{min}
use drasl.Prelude.{
  ℕ, ◌*◌, ◌≤◌, ◌≡◌, sym, ap, ◌∙◌, ◌⊎◌, inl, inr, some, arith, Bytes, nat_eq, ltb, length, take,
  length-take, Bool-cases,
}
use drasl.Errors.{ok, Result-cases}
use drasl.App.{App, hex_encode}
use drasl.Textures.{Kind, skin, cape, Upload, check_limit, validate, read_texture, read_upload}

-- The shape of a skin or cape
abbrev pub HasShape : Kind → ℕ → ℕ → Type 0
HasShape skin width height = width ≡ height
HasShape cape width height = width ≡ 2 * height

-- An accepted picture
pub record IsAccepted (kind : Kind) (app : App) (reader : Upload) (width height : ℕ) : Type 0 where
  pub size_lem : reader.size ≡ ok (width, height)
  pub shape : HasShape kind width height
  pub limited : (app.config.skin_size_limit ≡ 0) ⊎ (width ≤ app.config.skin_size_limit)

check_limit-ok :
    (app : App) (width : ℕ)
    → check_limit app width ≡ ok tt
    → (app.config.skin_size_limit ≡ 0) ⊎ (width ≤ app.config.skin_size_limit)
unfolding check_limit
check_limit-ok app width h = elim (Bool-cases (ltb 0 app.config.skin_size_limit)) [
  | inr n ↦ inl (ground arith)
  | inl y ↦ inr (ground arith)
]

validate-IsAccepted :
    (kind : Kind) (app : App) (reader : Upload)
    → validate kind app reader ≡ ok tt
    → (width : ℕ) × (height : ℕ) × IsAccepted kind app reader width height
unfolding validate
validate-IsAccepted skin app reader h = elim (Result-cases reader.size) [
  | inr (e, p) ↦ absurd (ground (arith))
  | inl ((width, height), p) ↦ elim (Bool-cases (nat_eq width height)) [
    | inr n ↦ absurd (ground arith)
    | inl y ↦ (
      width,
      height,
      record {
        size_lem = p;
        shape = ground arith;
        limited = check_limit-ok app width (ground arith);
      },
    )
  ]
]
validate-IsAccepted cape app reader h = elim (Result-cases reader.size) [
  | inr (e, p) ↦ absurd (ground arith)
  | inl ((width, height), p) ↦ elim (Bool-cases (nat_eq width (2 * height))) [
    | inr n ↦ absurd (ground arith)
    | inl y ↦ (
      width,
      height,
      record {
        size_lem = p;
        shape = ground arith;
        limited = check_limit-ok app width (ground arith);
      },
    )
  ]
]

limit_lem : (n m : ℕ) (b : Bytes) → length b ≡ min n m → length b ≤ n
limit_lem n m b h = omega arith

-- A texture that is kept is the start of an upload with the shape of its kind, is no wider than the
-- configured limit if there is one, has at most ten million bytes, and is named by its hash.
pub read_upload-IsAccepted :
    (kind : Kind) (app : App) (reader : Upload) (buf hash : Bytes)
    → read_upload kind app (some reader) ≡ ok (some (buf, hash))
    → (width : ℕ) × (height : ℕ) × IsAccepted kind app reader width height
      × (length buf ≤ 10000000)
      × (hash ≡ hex_encode (app.blake3_sum256 buf))
unfolding read_upload read_texture
read_upload-IsAccepted kind app reader buf hash h = elim (Result-cases (validate kind app reader)) [
  | inr (e, p) ↦ absurd (ground arith)
  | inl (_, p) ↦ elim (Result-cases reader.body) [
    | inr (e, q) ↦ absurd (ground arith)
    | inl (body, q) ↦
        let (width, height, accepted) = validate-IsAccepted kind app reader p in
        let kept : buf ≡ take 10000000 body = ground arith in
        let named : hash ≡ hex_encode (app.blake3_sum256 (take 10000000 body)) = ground arith in
        (
          width,
          height,
          accepted,
          limit_lem 10000000 (length body) buf
              (ap (λ (b : Bytes). length b) kept ∙ length-take 10000000 body),
          named ∙ ap (λ (b : Bytes). hex_encode (app.blake3_sum256 b)) (sym kept),
        )
  ]
]
