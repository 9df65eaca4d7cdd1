-- ===== src/Front/Challenge/Window.antt =====
-- The challenge survives the skin.
use drasl.Prelude.{ℕ, zero, suc, ◌≡◌, refl, sym, ap, ◌∙◌, [], ◌∷◌, Bytes, length}
use drasl.App.{Image}
use drasl.Front.Challenge.{read_row, read_rows, read_challenge, byte_at, embed_challenge}

-- `n` bytes from the `i`-th one on
bytes_from : Bytes → ℕ → ℕ → Bytes
unfolding byte_at
bytes_from c i zero = []
bytes_from c i (suc n) = byte_at c i ∷ bytes_from c (suc i) n

bytes_from-shift : (b : ℕ) (c : Bytes) (i n : ℕ) → bytes_from (b ∷ c) (suc i) n ≡ bytes_from c i n
unfolding bytes_from byte_at
bytes_from-shift b c i zero = refl
bytes_from-shift b c i (suc n) = ap (byte_at c i ∷◌) (bytes_from-shift b c (suc i) n)

bytes_from-all : (c : Bytes) → bytes_from c 0 (length c) ≡ c
unfolding bytes_from byte_at
bytes_from-all [] = refl
bytes_from-all (b ∷ c) = ap (b ∷◌) (bytes_from-shift b c 0 (length c) ∙ bytes_from-all c)

window-bytes_from :
    (challenge : Bytes) (img : Image)
    → read_challenge (embed_challenge challenge img) ≡ bytes_from challenge 0 64
unfolding read_challenge read_rows read_row embed_challenge bytes_from
window-bytes_from challenge img = refl

-- Reading the window of a skin into which a challenge of 64 bytes was embedded gives the challenge,
-- whatever the skin was.
pub read_challenge-embed_challenge :
    (challenge : Bytes) (img : Image)
    → length challenge ≡ 64
    → read_challenge (embed_challenge challenge img) ≡ challenge
read_challenge-embed_challenge challenge img sixty_four =
    window-bytes_from challenge img
    ∙ (ap (bytes_from challenge 0) (sym sixty_four) ∙ bytes_from-all challenge)
