-- ===== src/Util/Wrap.antt =====
-- `Wrap` of util.go ends, and its lines are the text cut into pieces of the line length.
use Prim.Native.Nat.{min}
use mathlib.Core.List.{append-nil, append_assoc}
use drasl.Prelude.{
  ℕ, zero, suc, ◌+◌, ◌≤◌, ◌<◌, ◌≡◌, refl, ap, sym, ◌∙◌, true, false, Option, some, List, [], ◌∷◌,
  ◌++◌, arith, ltb, Bytes, length, take, drop, take-append-drop, length-take, length-drop,
  Bool-cases, inl, inr,
}
use drasl.Util.{wrap, wrap_loop}

-- Lines with a line break between any two.
abbrev pub join_lines : List Bytes → Bytes
join_lines [] = []
join_lines (l ∷ []) = l
join_lines (l ∷ m ∷ r) = l ++ (b'\n' ∷ join_lines (m ∷ r))

-- The lines with nothing between them.
abbrev pub concat : List Bytes → Bytes
concat [] = []
concat (l ∷ r) = l ++ concat r

-- Every line but the last is full, and the last is no longer.
abbrev pub AreLines : ℕ → List Bytes → Type 0
AreLines n [] = Unit
AreLines n (l ∷ []) = length l ≤ n
AreLines n (l ∷ m ∷ r) = (length l ≡ n) × AreLines n (m ∷ r)

abbrev IsWrapped : ℕ → Bytes → Bytes → Option Bytes → Type 0
IsWrapped n s builder out =
    (l : Bytes) × (r : List Bytes) × (out ≡ some (builder ++ join_lines (l ∷ r)))
    × AreLines n (l ∷ r)
    × (concat (l ∷ r) ≡ s)

IsWrapped-step :
    (n : ℕ) (s builder line rest : Bytes) (out : Option Bytes)
    → length line ≡ n
    → line ++ rest ≡ s
    → IsWrapped n rest ((builder ++ line) ++ (b'\n' ∷ [])) out
    → IsWrapped n s builder out
IsWrapped-step n s builder line rest out full split (l, r, made, lines, flat) =
    (line, l ∷ r, made ∙ simp append_assoc, (full, lines), ap (λ t. line ++ t) flat ∙ split)

nil_of_empty : (s : Bytes) → ltb 0 (length s) ≡ false → s ≡ []
nil_of_empty [] h = refl
nil_of_empty (c ∷ s) h = ground arith

module _ (n : ℕ) (s : Bytes) where
  shorter : ltb 0 (length (drop (min n (length s)) s)) ≡ true → n < length s
  shorter more =
      let d = length-drop (min n (length s)) s in
      let p : 0 < length (drop (min n (length s)) s) = ground arith in omega arith

  taken : ltb 0 (length (drop (min n (length s)) s)) ≡ false → take (min n (length s)) s ≡ s
  taken last =
      sym (append-nil _)
      ∙ ap (λ t. take (min n (length s)) s ++ t)
          (sym (nil_of_empty (drop (min n (length s)) s) last))
      ∙ take-append-drop (min n (length s)) s

wrap_loop-IsWrapped :
    (fuel n : ℕ) (s builder : Bytes)
    → 0 < n
    → length s < fuel
    → IsWrapped n s builder (wrap_loop fuel n s builder)
unfolding wrap_loop
wrap_loop-IsWrapped zero n s builder pos h = elim h [ ]
wrap_loop-IsWrapped (suc fuel) n s builder pos h =
    elim (Bool-cases (ltb 0 (length (drop (min n (length s)) s)))) [
      | inl more ↦ rw more (
          IsWrapped-step n s builder (take (min n (length s)) s) (drop (min n (length s)) s) _
            (omega (arith, length-take (min n (length s)) s, shorter n s more))
            (take-append-drop (min n (length s)) s)
            (wrap_loop-IsWrapped fuel n (drop (min n (length s)) s) _ pos
              (omega (arith, shorter n s more, length-drop (min n (length s)) s))))
      | inr last ↦ rw last (
        take (min n (length s)) s,
        [],
        refl,
        omega (arith, length-take (min n (length s)) s),
        append-nil _ ∙ taken n s last,
      )
    ]

-- For a positive line length `Wrap` returns: it joins lines that make up the text, each but the
-- last exactly as long as the line length, and the last no longer.
pub wrap_lines :
    (s : Bytes) (n : ℕ)
    → 0 < n
    → (lines : List Bytes) × (wrap s n ≡ some (join_lines lines))
      × AreLines n lines
      × (concat lines ≡ s)
unfolding wrap
wrap_lines s n pos =
    let (l, r, made, lines, flat) = wrap_loop-IsWrapped (length s + 1) n s [] pos (omega arith) in
    (l ∷ r, made, lines, flat)
