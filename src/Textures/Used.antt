-- ===== src/Textures/Used.antt =====
-- Which textures the rows of `users` name, before and after a row is saved or deleted.
use drasl.Prelude.{
  ◌≡◌, ◌≢◌, refl, sym, Bool, ◌&&◌, ◌||◌, not, List, [], ◌∷◌, inl, inr, arith, Bytes, ◌==◌, eq_iff,
  eq_refl, subst, any, keep, All, Bool-cases,
}
use drasl.Model.Types.{User}
use drasl.Database.Tables.{put_user, column_is}
use drasl.Database.Laws.{In, UniqueBy}
use drasl.Database.Rows.{All-In}
use drasl.Textures.{Kind, hash_of}

-- Some user has the texture.
abbrev pub used : Kind → List User → Bytes → Bool
used kind users hash = any (λ u. column_is (hash_of kind u) hash) users

-- Some user but the one of the identifier passes.
abbrev pub others : Bytes → (User → Bool) → List User → Bool
others uuid p = any (λ u. not (u.uuid == uuid) && p u)

others-All :
    (uuid : Bytes) (p : User → Bool) (users : List User)
    → All (λ (v : User). v.uuid ≢ uuid) users
    → any p users ≡ others uuid p users
others-All uuid p [] h = refl
others-All uuid p (v ∷ users) (ne, nes) =
    ground (arith, eq_iff v.uuid uuid, others-All uuid p users nes)

-- A row that stands in the table, and the others.
pub any-In :
    (p : User → Bool) (u : User) (users : List User)
    → UniqueBy (λ (u : User). u.uuid) users
    → In u users
    → any p users ≡ (p u || others u.uuid p users)
any-In p u [] us m = absurd m
any-In p u (v ∷ users) (n, us) (inl e) =
    subst (λ (x : User). any p (v ∷ users) ≡ (p x || others x.uuid p (v ∷ users))) (sym e)
      (ground (arith, eq_refl v.uuid, others-All v.uuid p users n))
any-In p u (v ∷ users) (n, us) (inr m) =
    let ne = All-In (λ (y : User). y.uuid ≢ v.uuid) u users n m in
    ground (arith, eq_iff v.uuid u.uuid, any-In p u users us m)

pub any-put_user :
    (p : User → Bool) (u : User) (users : List User)
    → UniqueBy (λ (u : User). u.uuid) users
    → any p (put_user u users) ≡ (p u || others u.uuid p users)
unfolding put_user
any-put_user p u [] us = ground arith
any-put_user p u (v ∷ users) (n, us) = elim (Bool-cases (v.uuid == u.uuid)) [
  | inl same ↦
      let k =
        others-All u.uuid p users
          (subst (λ x. All (λ (y : User). y.uuid ≢ x) users) ((eq_iff v.uuid u.uuid).0 same) n) in
      rw (same, k) (ground arith)
  | inr other ↦ rw (other, any-put_user p u users us) (ground arith)
]

pub any-delete :
    (p : User → Bool) (uuid : Bytes) (users : List User)
    → any p (keep (λ u. not (u.uuid == uuid)) users) ≡ others uuid p users
any-delete p uuid [] = refl
any-delete p uuid (v ∷ users) = ground (arith, any-delete p uuid users)
