-- ===== src/Util.antt =====
-- util.go: membership, pointers to strings, truncation and line wrapping.
pub mod Wrap
pub mod Contains
use Prim.Native.Nat.{min}
use drasl.Prelude.{
  ℕ, zero, suc, ◌+◌, ◌-◌, ◌<◌, ◌≤◌, ◌≡◌, ◌↔◌, refl, Bool, true, false, ◌||◌, Option, none, some,
  List, [], ◌∷◌, ◌++◌, arith, ltb, Bytes, ◌==◌, eq_iff, length, take, drop, replicate, find,
  if◌then◌else◌,
}

-- `Contains` at strings
unfoldable pub contains : List Bytes → Bytes → Bool
contains [] target = false
contains (el ∷ slice) target = if el == target then true else contains slice target

-- `ContainsPublicKey`: `Equal` compares the keys' contents, which a key stands for here.
unfoldable pub contains_public_key : List Bytes → Bytes → Bool
contains_public_key [] target = false
contains_public_key (el ∷ slice) target =
    if el == target then true else contains_public_key slice target

-- `PtrEquals` at pointers to strings. Equal pointers have equal contents.
unfoldable pub ptr_equals : Option Bytes → Option Bytes → Bool
ptr_equals none none = true
ptr_equals none (some b) = false
ptr_equals (some a) none = false
ptr_equals (some a) (some b) = a == b

-- `ptr_equals` decides equality of nullable strings.
pub ptr_equals_iff : (a b : Option Bytes) → (ptr_equals a b ≡ true) ↔ (a ≡ b)
unfolding ptr_equals
ptr_equals_iff none none = (λ _. refl, λ _. refl)
ptr_equals_iff none (some b) = ground arith
ptr_equals_iff (some a) none = ground arith
ptr_equals_iff (some a) (some b) = ground (arith, eq_iff a b)

-- One pass of the loop writes at most `n` bytes and goes on with the rest. The fuel counts passes;
-- `none` means that it ran out.
wrap_loop : ℕ → ℕ → Bytes → Bytes → Option Bytes
wrap_loop zero n s builder = none
wrap_loop (suc fuel) n s builder =
    let end = min n (length s) in
    let line = builder ++ take end s in
    let again = wrap_loop fuel n (drop end s) (line ++ (b'\n' ∷ [])) in
    if ltb 0 (length (drop end s)) then again else some line

-- `Wrap(s, n)`. Each pass but the last takes a byte at least, so these passes are enough.
unfoldable pub wrap : Bytes → ℕ → Option Bytes
unfolding wrap_loop
wrap s n = wrap_loop (length s + 1) n s []
