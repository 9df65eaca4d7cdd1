-- ===== src/Front/Quiet.antt =====
-- Steps of a handler that change no table and start no session.
use drasl.Prelude.{
  ◌≡◌, refl, sym, ap, subst, ◌∙◌, ◌⊎◌, inl, inr, Bool, true, false, Option, none, some, List, [],
  ◌∷◌, ◌++◌, Bytes, if◌then◌else◌,
}
use drasl.Errors.{Error, Result, ok, err}
use drasl.Flow.{Flow, next, done, continue, reply_of, run, ◌>>=◌}
use drasl.Front.Types.{
  Cookie, success_message, error_message, browser_token, challenge_token, clear_browser_token, Page,
  Site, Handler, refuse, try, check,
}
use drasl.Front.Login.{refuse_if}
use drasl.Front.Login.Sound.{session_of}

-- Such a step goes on with the state as it was, or ends the handler.
abbrev pub IsQuiet : {A : Type 0} → Handler A → Type 0
IsQuiet m =
    (s : Site)
    → ((a : _) × (m s ≡ (next a, s)))
      ⊎ ((p : Page) × (s' : Site) × (m s ≡ (done p, s'))
          × (s'.tables ≡ s.tables)
          × (session_of s'.cookies ≡ session_of s.cookies))

pub session_of-refuse :
    (message : Error) (cookies : List Cookie)
    → session_of (cookies ++ (error_message message ∷ [])) ≡ session_of cookies
unfolding session_of
session_of-refuse message [] = refl
session_of-refuse message (success_message _ ∷ cookies) = session_of-refuse message cookies
session_of-refuse message (error_message _ ∷ cookies) = session_of-refuse message cookies
session_of-refuse message (browser_token _ ∷ cookies) = refl
session_of-refuse message (challenge_token _ ∷ cookies) = session_of-refuse message cookies
session_of-refuse message (clear_browser_token ∷ cookies) = session_of-refuse message cookies

pub bind-IsQuiet :
    {A B : Type 0} (m : Handler A) (f : A → Handler B)
    → IsQuiet m
    → ((a : A) → IsQuiet (f a))
    → IsQuiet (m >>= f)
bind-IsQuiet m f quiet quiet_f s = elim (quiet s) [
  | inl (a, e) ↦ rw e (quiet_f a s)
  | inr (p, s', e, tables, session) ↦ inr (p, s', rw e refl, tables, session)
]

pub refuse-IsQuiet :
    {A : Type 0} (message : Error) (url : Bytes) → IsQuiet {A = A} (refuse message url)
refuse-IsQuiet message url s = inr (_, _, refl, refl, session_of-refuse message s.cookies)

pub try-IsQuiet : {A : Type 0} (r : Result A) → IsQuiet (try r)
try-IsQuiet (ok a) s = inl (a, refl)
try-IsQuiet (err e) s = inr (_, s, refl, refl, refl)

pub check-IsQuiet : (e : Option Error) → IsQuiet (check e)
check-IsQuiet none s = inl (tt, refl)
check-IsQuiet (some e) s = inr (_, s, refl, refl, refl)

pub refuse_if-IsQuiet :
    (test : Bool) (message : Error) (url : Bytes) → IsQuiet (refuse_if test message url)
refuse_if-IsQuiet true message url s = refuse-IsQuiet message url s
refuse_if-IsQuiet false message url s = inl (tt, refl)

pub if-IsQuiet :
    {A : Type 0} (test : Bool) (m n : Handler A)
    → IsQuiet m
    → IsQuiet n
    → IsQuiet (if test then m else n)
if-IsQuiet true m n quiet_m quiet_n = quiet_m
if-IsQuiet false m n quiet_m quiet_n = quiet_n

-- The end of a handler that goes on with `f` after a step.
abbrev ended : {A : Type 0} → (A → Handler Page) → Flow Page A × Site → Page × Site
ended f x = (reply_of (continue x.0 f x.1).0, (continue x.0 f x.1).1)

-- The step goes on, or the whole handler ends with its tables and sessions unchanged.
pub IsQuiet-run :
    {A : Type 0} (m : Handler A) (f : A → Handler Page) (s s' : Site) (page : Page)
    → IsQuiet m
    → run (m >>= f) s ≡ (page, s')
    → ((a : A) × (m s ≡ (next a, s)) × (run (f a) s ≡ (page, s')))
      ⊎ ((s'.tables ≡ s.tables) × (session_of s'.cookies ≡ session_of s.cookies))
IsQuiet-run m f s s' page quiet h = elim (quiet s) [
  | inl (a, e) ↦ inl (a, e, subst (λ x. ended f x ≡ (page, s')) e h)
  | inr (p, s'', e, tables, session) ↦
      let same : s'' ≡ s' =
        ap (λ (x : Page × Site). x.1) (subst (λ x. ended f x ≡ (page, s')) e h) in
      inr (
        ap (λ (x : Site). x.tables) (sym same) ∙ tables,
        ap (λ (x : Site). session_of x.cookies) (sym same) ∙ session,
      )
]

-- What a sequence of steps that goes on has done.
pub bind-next :
    {A B : Type 0} (m : Handler A) (f : A → Handler B) (s s' : Site) (b : B)
    → IsQuiet m
    → (m >>= f) s ≡ (next b, s')
    → (a : A) × (m s ≡ (next a, s)) × (f a s ≡ (next b, s'))
bind-next m f s s' b quiet h = elim (quiet s) [
  | inl (a, e) ↦ (a, e, subst (λ x. continue x.0 f x.1 ≡ (next b, s')) e h)
  | inr (p, s'', e, _, _) ↦ absurd (cc (subst (λ x. continue x.0 f x.1 ≡ (next b, s')) e h))
]
