-- ===== src/System/Keeps.antt =====
-- A predicate on the tables that statements keep, and steps of handlers that keep it.
pub mod Apis
pub mod Front
pub mod Accounts
pub mod Rights
pub mod Clients
pub mod Signins
pub mod Requests
use drasl.Prelude.{
  All, ◌≡◌, refl, sym, subst, Bool, true, false, Option, none, some, List, if◌then◌else◌,
}
use drasl.Errors.{Error, Result, ok, err}
use drasl.Flow.{Flow, Exec, next, done, continue, pure, gets, lift, need, guard, lift, ◌>>=◌}
use drasl.Database.Tables.{
  Tables, Statement, save_user, save_user_and_clients, create_user, delete_user, save_client,
  increment_versions, create_invite, delete_invite, make_admins, Database,
}

-- A statement that saves no row of a client as a whole: it may raise versions.
abbrev pub SavesNoClient : Statement → Type 0
SavesNoClient (save_user _) = Unit
SavesNoClient (save_user_and_clients _ _) = ⊥
SavesNoClient (create_user _) = Unit
SavesNoClient (delete_user _) = Unit
SavesNoClient (save_client _) = ⊥
SavesNoClient (increment_versions _) = Unit
SavesNoClient (create_invite _) = Unit
SavesNoClient (delete_invite _) = Unit
SavesNoClient (make_admins _) = Unit

-- A condition on the tables that these statements and their transactions keep.
pub record IsKept (db : Database) (P : Tables → Type 0) : Type 0 where
  pub exec_keeps : (s : Statement) → SavesNoClient s → (t : Tables) → P t → P (db.exec s t).1
  pub commit_keeps :
      (pending : List Statement)
      → All SavesNoClient pending
      → (t : Tables) → P t
      → P (db.commit pending t).1

-- A handler keeps a condition on its state.
pub record Keeps {S R A : Type 0} (Q : S → Type 0) (m : Exec S R A) : Type 0 where
  pub keep : (s : S) → Q s → Q (m s).1

module _ {S R : Type 0} (Q : S → Type 0) where
  continue_keep :
      {A B : Type 0} (x : Flow R A) (f : A → Exec S R B)
      → ((a : A) → Keeps Q (f a))
      → (s : S) → Q s
      → Q (continue x f s).1
  continue_keep (next a) f keeps_f s q = (keeps_f a).keep s q
  continue_keep (done r) f keeps_f s q = q

  pub bind-Keeps :
      {A B : Type 0} (m : Exec S R A) (f : A → Exec S R B)
      → Keeps Q m
      → ((a : A) → Keeps Q (f a))
      → Keeps Q (m >>= f)
  bind-Keeps m f keeps keeps_f = record {
    keep = λ s q. continue_keep (m s).0 f keeps_f (m s).1 (keeps.keep s q);
  }

  continue_given :
      {A B : Type 0} (x : Flow R A) (f : A → Exec S R B)
      → ((a : A) → x ≡ next a → Keeps Q (f a))
      → (s : S) → Q s
      → Q (continue x f s).1
  continue_given (next a) f keeps_f s q = (keeps_f a refl).keep s q
  continue_given (done r) f keeps_f s q = q

  -- The rest may use where its value is from.
  pub bind_given-Keeps :
      {A B : Type 0} (m : Exec S R A) (f : A → Exec S R B)
      → Keeps Q m
      → ((a : A) (s : S) → Q s → (m s).0 ≡ next a → Keeps Q (f a))
      → Keeps Q (m >>= f)
  bind_given-Keeps m f keeps keeps_f = record {
    keep = λ s q. continue_given (m s).0 f (λ a. keeps_f a s q) (m s).1 (keeps.keep s q);
  }

  -- A step that leaves the state alone
  pub still-Keeps : {A : Type 0} (m : Exec S R A) → ((s : S) → (m s).1 ≡ s) → Keeps Q m
  still-Keeps m same = record { keep = λ s q. subst Q (sym (same s)) q }

  pub pure-Keeps : {A : Type 0} (a : A) → Keeps Q (pure {R = R} a)
  pure-Keeps a = record { keep = λ s q. q }

  pub gets-Keeps : {A : Type 0} (f : S → A) → Keeps Q (gets {R = R} f)
  gets-Keeps f = record { keep = λ s q. q }

  pub lift-Keeps : {A : Type 0} (x : Flow R A) → Keeps Q (lift x)
  lift-Keeps x = record { keep = λ s q. q }

  pub need-Keeps : {A : Type 0} (a : Option A) (r : R) → Keeps Q (need a r)
  need-Keeps none r = still-Keeps (need none r) (λ s. refl)
  need-Keeps (some a) r = still-Keeps (need (some a) r) (λ s. refl)

  pub guard-Keeps : (test : Bool) (r : R) → Keeps Q (guard test r)
  guard-Keeps true r = still-Keeps (guard true r) (λ s. refl)
  guard-Keeps false r = still-Keeps (guard false r) (λ s. refl)

  pub if-Keeps :
      {A : Type 0} (test : Bool) (m n : Exec S R A)
      → Keeps Q m
      → Keeps Q n
      → Keeps Q (if test then m else n)
  if-Keeps true m n keeps_m keeps_n = keeps_m
  if-Keeps false m n keeps_m keeps_n = keeps_n
