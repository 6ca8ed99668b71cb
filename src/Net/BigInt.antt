-- ===== src/Net/BigInt.antt =====
-- The bytes of math/big's integers, as `MaxHost` uses them.
use native.Mathlib.Nat.{pow-suc, one-le-pow}
use stprov.Prelude.{
  ℕ, zero, suc, ◌+◌, ◌/◌, ◌%◌, ◌^◌, ◌≤◌, ◌<◌, [], ◌∷◌, Bytes, length, ◌≡◌, refl, ◌∙◌, arith,
}
use stprov.Net.{uint_be, int_bytes, bytes_loop}

-- The bytes of a number stand for it.
uint_be-bytes_loop :
    (f n : ℕ) (acc : Bytes) → n ≤ f → uint_be (bytes_loop f n acc) 0 ≡ uint_be acc n
unfolding bytes_loop uint_be
uint_be-bytes_loop zero n acc h = ground arith
uint_be-bytes_loop (suc f) n acc h =
    ground (arith, uint_be-bytes_loop f (n / 256) ((n % 256) ∷ acc) (omega arith))

pub uint_be-int_bytes : (n : ℕ) → uint_be (int_bytes n) 0 ≡ n
unfolding int_bytes
uint_be-int_bytes n = uint_be-bytes_loop n n [] (omega arith) ∙ unfold uint_be in refl

-- A number has as many bytes as it needs.
length-bytes_loop :
    (k f n : ℕ) (acc : Bytes)
    → n ≤ f
    → 256 ^ k ≤ n
    → n < 256 ^ suc k
    → length (bytes_loop f n acc) ≡ suc k + length acc
unfolding bytes_loop
length-bytes_loop k zero n acc h low high = absurd (omega (arith, one-le-pow k 256))
length-bytes_loop zero (suc zero) n acc h low high = ground arith
length-bytes_loop zero (suc (suc f)) n acc h low high = ground arith
length-bytes_loop (suc k) (suc f) n acc h low high = ground (
  arith,
  length-bytes_loop k f (n / 256) ((n % 256) ∷ acc) (omega (arith, one-le-pow k 256, pow-suc 256 k))
      (omega (arith, pow-suc 256 k)) (omega (arith, pow-suc 256 (suc k))),
  one-le-pow (suc k) 256,
)

length-bytes_loop-le :
    (k f n : ℕ) (acc : Bytes) → n ≤ f → n < 256 ^ k → length (bytes_loop f n acc) ≤ k + length acc
unfolding bytes_loop
length-bytes_loop-le k zero n acc h high = omega arith
length-bytes_loop-le zero (suc f) n acc h high = ground arith
length-bytes_loop-le (suc k) (suc f) n acc h high = ground (
  arith,
  length-bytes_loop-le k f (n / 256) ((n % 256) ∷ acc) (omega arith) (omega (arith, pow-suc 256 k)),
)

pub length-int_bytes : (k n : ℕ) → 256 ^ k ≤ n → n < 256 ^ suc k → length (int_bytes n) ≡ suc k
unfolding int_bytes
length-int_bytes k n low high = omega (arith, length-bytes_loop k n n [] (omega arith) low high)

pub length-int_bytes-le : (k n : ℕ) → n < 256 ^ k → length (int_bytes n) ≤ k
unfolding int_bytes
length-int_bytes-le k n high = omega (arith, length-bytes_loop-le k n n [] (omega arith) high)
