-- ===== src/Front/Gives.antt =====
-- Quiet steps of a handler, with what holds of the value that they go on with.
use drasl.Prelude.{
  ◌≡◌, refl, sym, ap, subst, ◌∙◌, ◌⊎◌, inl, inr, Bool, true, false, Bytes, if◌then◌else◌,
}
use drasl.Errors.{Error, Result, ok, err}
use drasl.Flow.{Flow, next, done, pure, continue, reply_of, run, ◌>>=◌}
use drasl.Front.Types.{Page, Site, Handler, try, refuse}
use drasl.Front.Login.{refuse_if}
use drasl.Front.Login.Sound.{session_of}
use drasl.Front.Quiet.{session_of-refuse}
use drasl.Front.Register.{accept}

-- The handler ends here, with its world and sessions unchanged.
abbrev pub EndsQuietly : {A : Type 0} → Handler A → Site → Type 0
EndsQuietly m s =
    (p : Page) × (s' : Site) × (m s ≡ (done p, s'))
    × (s'.world ≡ s.world)
    × (session_of s'.cookies ≡ session_of s.cookies)

-- Such a step goes on with a value that meets the condition and the state as it was, or ends the
-- handler.
abbrev pub GivesAt : {A : Type 0} → (A → Type 0) → Handler A → Site → Type 0
GivesAt R m s = ((a : _) × R a × (m s ≡ (next a, s))) ⊎ EndsQuietly m s

abbrev pub Gives : {A : Type 0} → (A → Type 0) → Handler A → Type 0
Gives R m = (s : Site) → GivesAt R m s

pub pure-Gives : {A : Type 0} (R : A → Type 0) (a : A) → R a → Gives R (pure a)
pure-Gives R a r s = inl (a, r, refl)

pub bind-Gives :
    {A B : Type 0} (R : A → Type 0) (S : B → Type 0) (m : Handler A) (f : A → Handler B)
    → Gives R m
    → ((a : A) → R a → Gives S (f a))
    → Gives S (m >>= f)
bind-Gives R S m f gives gives_f s = elim (gives s) [
  | inl (a, r, e) ↦ rw e (gives_f a r s)
  | inr (p, s', e, world, session) ↦ inr (p, s', rw e refl, world, session)
]

-- To forget the condition
pub weaken-Gives :
    {A : Type 0} (R : A → Type 0) (m : Handler A) → Gives R m → Gives (λ _. Unit {0}) m
weaken-Gives R m gives s = elim (gives s) [ inl (a, _, e) ↦ inl (a, tt, e) | inr ended ↦ inr ended ]

pub refuse-Gives :
    {A : Type 0} (R : A → Type 0) (message : Error) (url : Bytes) → Gives R (refuse message url)
refuse-Gives R message url s = inr (_, _, refl, refl, session_of-refuse message s.cookies)

pub accept-Gives :
    {A : Type 0} (r : Result A) (message : Error → Error) (url : Bytes)
    → Gives (λ a. r ≡ ok a) (accept r message url)
unfolding accept
accept-Gives (ok a) message url s = inl (a, refl, refl)
accept-Gives (err e) message url s = refuse-Gives (λ a. err e ≡ ok a) (message e) url s

pub try-Gives : {A : Type 0} (r : Result A) → Gives (λ a. r ≡ ok a) (try r)
try-Gives (ok a) s = inl (a, refl, refl)
try-Gives (err e) s = inr (_, s, refl, refl, refl)

pub refuse_if-Gives :
    (test : Bool) (message : Error) (url : Bytes)
    → Gives (λ _. test ≡ false) (refuse_if test message url)
refuse_if-Gives true message url s = refuse-Gives (λ _. true ≡ false) message url s
refuse_if-Gives false message url s = inl (tt, refl, refl)

pub if-Gives :
    {A : Type 0} (R : A → Type 0) (test : Bool) (m n : Handler A)
    → (test ≡ true → Gives R m)
    → (test ≡ false → Gives R n)
    → Gives R (λ s. if test then m s else n s)
if-Gives R true m n gives_m gives_n = gives_m refl
if-Gives R false m n gives_m gives_n = gives_n refl

-- The end of a handler that goes on with `f` after a step.
abbrev ended : {A : Type 0} → (A → Handler Page) → Flow Page A × Site → Page × Site
ended f x = (reply_of (continue x.0 f x.1).0, (continue x.0 f x.1).1)

-- The step goes on, or the whole handler ends with its world and sessions unchanged.
pub Gives-run :
    {A : Type 0} (R : A → Type 0) (m : Handler A) (f : A → Handler Page) (s s' : Site) (page : Page)
    → GivesAt R m s
    → run (m >>= f) s ≡ (page, s')
    → ((a : A) × R a × (run (f a) s ≡ (page, s')))
      ⊎ ((s'.world ≡ s.world) × (session_of s'.cookies ≡ session_of s.cookies))
Gives-run R m f s s' page gives h = elim gives [
  | inl (a, r, e) ↦ inl (a, r, subst (λ x. ended f x ≡ (page, s')) e h)
  | inr (p, s'', e, world, session) ↦
      let same : s'' ≡ s' =
        ap (λ (x : Page × Site). x.1) (subst (λ x. ended f x ≡ (page, s')) e h) in
      inr (
        ap (λ (x : Site). x.world) (sym same) ∙ world,
        ap (λ (x : Site). session_of x.cookies) (sym same) ∙ session,
      )
]
