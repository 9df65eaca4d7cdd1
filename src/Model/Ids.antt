-- ===== src/Model/Ids.antt =====
-- `UUIDToID` and `IDToUUID` of model.go are inverse to one another on well-formed identifiers.
use drasl.Prelude.{
  ℕ, zero, suc, ◌+◌, ◌≡◌, ◌≢◌, refl, ◌∙◌, ap, ap, sym, not, [], ◌∷◌, ◌++◌, arith, nat_eq, Bytes,
  length, take, drop, take-append-drop, length-append, length-take, length-drop, keep, All,
  if◌then◌else◌,
}
use native.Mathlib.Nat.{zero-add, add-zero, suc-add}
use drasl.Errors.{Result, ok, err, text, ◌>>=◌}

-- `strings.ReplaceAll(s, "-", "")`
abbrev pub remove_dashes : Bytes → Bytes
remove_dashes = keep (λ c. not (nat_eq c b'-'))

unfoldable pub uuid_to_id : Bytes → Result Bytes
uuid_to_id uuid =
    if nat_eq (length uuid) 36 then ok (remove_dashes uuid) else err (text "Invalid UUID")

-- `s[lo:hi]`, within bounds
abbrev pub slice : ℕ → ℕ → Bytes → Bytes
slice lo n s = take n (drop lo s)

unfoldable pub id_to_uuid : Bytes → Result Bytes
id_to_uuid id =
    if nat_eq (length id) 32
    then ok (
        slice 0 8 id
        ++ (b'-'
            ∷ (slice 8 4 id
                ++ (b'-' ∷ (slice 12 4 id ++ (b'-' ∷ (slice 16 4 id ++ (b'-' ∷ drop 20 id))))))))
    else err (text "Invalid ID")

abbrev pub NoDash : Bytes → Type 0
NoDash = All (λ c. c ≢ b'-')

drop-drop : (n m : ℕ) (s : Bytes) → drop m (drop n s) ≡ drop (n + m) s
drop-drop zero m s = rw zero-add
drop-drop (suc n) zero [] = rw add-zero
drop-drop (suc n) (suc m) [] = rw suc-add
drop-drop (suc n) m (c ∷ s) = rw suc-add (drop-drop n m s)

-- Two neighbouring pieces make one.
glue : (n m : ℕ) (s : Bytes) → slice n m s ++ drop (n + m) s ≡ drop n s
glue n m s = rw (← drop-drop n m s) (take-append-drop m (drop n s))

remove_dashes-append : (a b : Bytes) → remove_dashes (a ++ b) ≡ remove_dashes a ++ remove_dashes b
remove_dashes-append [] b = refl
remove_dashes-append (c ∷ a) b = ground (arith, remove_dashes-append a b)

remove_dashes_id : (a : Bytes) → NoDash a → remove_dashes a ≡ a
remove_dashes_id [] h = refl
remove_dashes_id (c ∷ a) (p, h) = ground (arith, remove_dashes_id a h)

NoDash-take : (n : ℕ) (a : Bytes) → NoDash a → NoDash (take n a)
NoDash-take zero a h = tt
NoDash-take (suc n) [] h = tt
NoDash-take (suc n) (c ∷ a) (p, h) = (p, NoDash-take n a h)

NoDash-drop : (n : ℕ) (a : Bytes) → NoDash a → NoDash (drop n a)
NoDash-drop zero a h = h
NoDash-drop (suc n) [] h = tt
NoDash-drop (suc n) (c ∷ a) (p, h) = NoDash-drop n a h

-- Five groups with dashes between them, as an identifier is printed.
abbrev pub hyphenated : Bytes → Bytes → Bytes → Bytes → Bytes → Bytes
hyphenated a b c d e = a ++ (b'-' ∷ (b ++ (b'-' ∷ (c ++ (b'-' ∷ (d ++ (b'-' ∷ e)))))))

-- Without the dashes it is the groups one behind another.
remove_dashes-hyphenated :
    (a b c d e : Bytes)
    → NoDash a × NoDash b × NoDash c × NoDash d × NoDash e
    → remove_dashes (hyphenated a b c d e) ≡ a ++ (b ++ (c ++ (d ++ e)))
remove_dashes-hyphenated a b c d e (pa, pb, pc, pd, pe) = simp (
  remove_dashes-append,
  remove_dashes_id a pa,
  remove_dashes_id b pb,
  remove_dashes_id c pc,
  remove_dashes_id d pd,
  remove_dashes_id e pe,
)

length-hyphenated :
    (a b c d e : Bytes)
    → length (hyphenated a b c d e) ≡ length a + length b + length c + length d + length e + 4
length-hyphenated a b c d e =
    rw (length-append, length-append, length-append, length-append) (omega arith)

take-append : (n : ℕ) (a b : Bytes) → length a ≡ n → take n (a ++ b) ≡ a
take-append zero [] b h = refl
take-append zero (x ∷ a) b h = absurd (omega arith)
take-append (suc n) [] b h = absurd (omega arith)
take-append (suc n) (x ∷ a) b h = ap (λ t. x ∷ t) (take-append n a b (omega arith))

drop-append : (n : ℕ) (a b : Bytes) → length a ≡ n → drop n (a ++ b) ≡ b
drop-append zero [] b h = refl
drop-append zero (x ∷ a) b h = absurd (omega arith)
drop-append (suc n) [] b h = absurd (omega arith)
drop-append (suc n) (x ∷ a) b h = drop-append n a b (omega arith)

drop-next : (n m : ℕ) (s a b : Bytes) → drop n s ≡ a ++ b → length a ≡ m → drop (n + m) s ≡ b
drop-next n m s a b h l = sym (drop-drop n m s) ∙ ap (drop m) h ∙ drop-append m a b l

module _ (id : Bytes) (h : length id ≡ 32) where
  groups : slice 0 8 id ++ (slice 8 4 id ++ (slice 12 4 id ++ (slice 16 4 id ++ drop 20 id))) ≡ id
  groups = rw (glue 16 4 id, glue 12 4 id, glue 8 4 id) (take-append-drop 8 id)

  length-hyphenated_groups :
      length (hyphenated (slice 0 8 id) (slice 8 4 id) (slice 12 4 id) (slice 16 4 id) (drop 20 id))
      ≡ 36
  length-hyphenated_groups =
      length-hyphenated _ _ _ _ _
      ∙ omega (
        arith,
        length-take 8 id,
        length-take 4 (drop 8 id),
        length-take 4 (drop 12 id),
        length-take 4 (drop 16 id),
        length-drop 8 id,
        length-drop 12 id,
        length-drop 16 id,
        length-drop 20 id,
      )

-- Any 32 bytes without a dash are turned into a text of 36 bytes, from which `UUIDToID` gives them
-- back.
pub uuid_to_id-id_to_uuid :
    (id : Bytes)
    → length id ≡ 32
    → NoDash id
    → (uuid : Bytes) × (id_to_uuid id ≡ ok uuid) × (length uuid ≡ 36) × (uuid_to_id uuid ≡ ok id)
unfolding id_to_uuid uuid_to_id
uuid_to_id-id_to_uuid id h p =
    let l = length-hyphenated_groups id h in
    (
      hyphenated (slice 0 8 id) (slice 8 4 id) (slice 12 4 id) (slice 16 4 id) (drop 20 id),
      rw h,
      l,
      rw l (
          ap ok (
            remove_dashes-hyphenated _ _ _ _ _ (
              NoDash-take 8 id p,
              NoDash-take 4 _ (NoDash-drop 8 id p),
              NoDash-take 4 _ (NoDash-drop 12 id p),
              NoDash-take 4 _ (NoDash-drop 16 id p),
              NoDash-drop 20 id p,
            )
            ∙ groups id h)),
    )

-- A printed UUID, five dashed groups of 8, 4, 4, 4 and 12 bytes without a dash, is the one that
-- `IDToUUID` gives for its ID.
pub id_to_uuid-uuid_to_id :
    (a b c d e : Bytes)
    → length a ≡ 8
    → length b ≡ 4
    → length c ≡ 4
    → length d ≡ 4
    → length e ≡ 12
    → NoDash a × NoDash b × NoDash c × NoDash d × NoDash e
    → (uuid_to_id (hyphenated a b c d e) >>= id_to_uuid) ≡ ok (hyphenated a b c d e)
unfolding id_to_uuid uuid_to_id
id_to_uuid-uuid_to_id a b c d e ha hb hc hd he p =
    let l : length (hyphenated a b c d e) ≡ 36 = length-hyphenated a b c d e ∙ omega arith in
    rw (l, remove_dashes-hyphenated a b c d e p)
      (let t = a ++ (b ++ (c ++ (d ++ e))) in
        let n : length t ≡ 32 =
          rw (length-append, length-append, length-append, length-append) (omega arith) in
        let d8 = drop-append 8 a _ ha in
        let d12 = drop-next 8 4 t b _ d8 hb in
        let d16 = drop-next 12 4 t c _ d12 hc in
        let d20 = drop-next 16 4 t d _ d16 hd in
        rw (
          n,
          take-append 8 a _ ha,
          d8,
          take-append 4 b _ hb,
          d12,
          take-append 4 c _ hc,
          d16,
          take-append 4 d _ hd,
          d20,
        ))
