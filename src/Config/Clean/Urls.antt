-- ===== src/Config/Clean/Urls.antt =====
-- What `CleanConfig` of config.go makes of a URL.
use drasl.Prelude.{
  ℕ, zero, suc, nat_eq, ◌++◌, ◌∙◌, ◌&&◌, ◌≡◌, ◌≢◌, refl, ap, subst, Bool, false, [], ◌∷◌, inl, inr,
  arith, Bytes, ◌==◌, eq_iff, Bool-cases,
}
use drasl.Errors.{Error, Result, ok, Result-cases}
use drasl.App.{Url}
use drasl.Config.Clean.{trim_right, clean_url}

-- The text ends in the byte.
abbrev pub ends_in : ℕ → Bytes → Bool
ends_in c [] = false
ends_in c (x ∷ []) = nat_eq x c
ends_in c (x ∷ (y ∷ s)) = ends_in c (y ∷ s)

abbrev pub slashes : ℕ → Bytes
slashes zero = []
slashes (suc n) = b'/' ∷ slashes n

-- What becomes of a URL: it is set and valid, and comes out without the slashes at its end.
pub record IsCleanUrl (parse : Bytes → Result Url) (given cleaned : Bytes) : Type 0 where
  pub given_set : given ≢ []
  pub given_valid : (u : Url) × (parse given ≡ ok u)
  pub trimmed : (n : ℕ) × (given ≡ cleaned ++ slashes n)
  pub no_slash : ends_in b'/' cleaned ≡ false

ends_in-cons :
    (c b : ℕ) (s : Bytes)
    → ends_in c s ≡ false
    → (nat_eq b c && s == []) ≡ false
    → ends_in c (b ∷ s) ≡ false
unfolding ◌==◌
ends_in-cons c b [] h k = ground arith
ends_in-cons c b (y ∷ s) h k = h

trim_right_lem :
    (s : Bytes) → (n : ℕ) × (s ≡ trim_right s ++ slashes n) × (ends_in b'/' (trim_right s) ≡ false)
unfolding trim_right
trim_right_lem [] = (0, refl, refl)
trim_right_lem (b ∷ s) =
    let (n, e, f) = trim_right_lem s in
    elim (Bool-cases (nat_eq b b'/' && trim_right s == [])) [
      | inl slash ↦
          let empty = (eq_iff (trim_right s) []).0 (ground arith) in
          let all : s ≡ slashes n = e ∙ ap (λ x. x ++ slashes n) empty in
          let first : b ≡ b'/' = ground arith in
          (suc n, rw slash (rw (first, all) refl), rw slash refl)
      | inr other ↦
          (n, rw other (ap (λ x. b ∷ x) e), rw other (ends_in-cons b'/' b (trim_right s) f other))
    ]

pub clean_url-IsCleanUrl :
    (parse : Bytes → Result Url) (url url' : Bytes) (blank : Error) (invalid : Error → Error)
    → clean_url parse url blank invalid ≡ ok url'
    → IsCleanUrl parse url url'
unfolding clean_url
clean_url-IsCleanUrl parse url url' blank invalid h = elim (Bool-cases (url == [])) [
  | inl none_set ↦ absurd (ground arith)
  | inr is_set ↦ elim (Result-cases (parse url)) [
    | inr (e, p) ↦ absurd (ground arith)
    | inl (u, p) ↦
        let same : trim_right url ≡ url' = ground arith in
        let (n, e, f) = trim_right_lem url in
        subst (IsCleanUrl parse url) same (record {
          given_set = λ q. cc (is_set, (eq_iff url []).1 q);
          given_valid = (u, p);
          trimmed = (n, e);
          no_slash = f;
        })
  ]
]
