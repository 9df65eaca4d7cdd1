-- ===== src/Services/Certificates/Width.antt =====
-- How many bytes the second signature is of.
use drasl.Prelude.{
  ℕ, zero, false, suc, ◌+◌, ◌*◌, ◌/◌, ◌%◌, ◌≤◌, ◌<◌, ◌≡◌, refl, [], ◌∷◌, ◌++◌, arith, Bytes, nat_eq,
  length, length-append,
}
use drasl.Services.Certificates.{hex_number, big_bytes, fixed_bytes, user_bytes, signed_data_v2}

-- 256 to a power
abbrev pub pow256 : ℕ → ℕ
pow256 zero = 1
pow256 (suc k) = 256 * pow256 k

big_bytes_zero : (fuel : ℕ) (acc : Bytes) → big_bytes fuel 0 acc ≡ acc
unfolding big_bytes
big_bytes_zero zero acc = refl
big_bytes_zero (suc fuel) acc = refl

length-big_bytes :
    (fuel n k : ℕ) (acc : Bytes)
    → pow256 k ≤ n
    → n < pow256 (suc k)
    → k < fuel
    → length (big_bytes fuel n acc) ≡ suc k + length acc
unfolding big_bytes
length-big_bytes zero n k acc low high enough = absurd (omega arith)
length-big_bytes (suc fuel) n zero acc low high enough =
    let small : n / 256 ≡ 0 = omega arith in
    let last = big_bytes_zero fuel ((n % 256) ∷ acc) in rw small (ground arith)
length-big_bytes (suc fuel) n (suc k) acc low high enough =
    let ih =
      length-big_bytes fuel (n / 256) k ((n % 256) ∷ acc) (omega arith) (omega arith)
        (omega arith) in
    let some_byte : nat_eq n 0 ≡ false = ground arith in rw some_byte (omega (arith, ih))

length-fixed_bytes :
    (count n : ℕ) (acc : Bytes) → length (fixed_bytes count n acc) ≡ count + length acc
unfolding fixed_bytes
length-fixed_bytes zero n acc = omega arith
length-fixed_bytes (suc count) n acc =
    omega (arith, length-fixed_bytes count (n / 256) ((n % 256) ∷ acc))

-- If the number behind a player's ID takes k + 1 bytes, the second signature is of k + 9 bytes and
-- the key: of 24 bytes and the key only if the number takes all 16.
pub length-signed_data_v2 :
    (id public_der : Bytes) (expires_at_milli k : ℕ)
    → pow256 k ≤ hex_number 0 id
    → hex_number 0 id < pow256 (suc k)
    → k < length id
    → length (signed_data_v2 id expires_at_milli public_der) ≡ k + 9 + length public_der
unfolding signed_data_v2
length-signed_data_v2 id public_der expires_at_milli k low high enough =
    let user = length-big_bytes (length id) (hex_number 0 id) k [] low high enough in
    let time = length-fixed_bytes 8 expires_at_milli [] in
    let a = length-append (user_bytes id) (fixed_bytes 8 expires_at_milli [] ++ public_der) in
    let b = length-append (fixed_bytes 8 expires_at_milli []) public_der in omega arith
