-- ===== src/Secrets/Derivation.antt =====
-- Sizes and forms of what internal/secrets/secrets.go derives.
use stprov.Prelude.{
  ℕ, ◌*◌, ◌/◌, ◌%◌, ◌<◌, [], ◌∷◌, ◌++◌, Text, Bytes, codes, length, ok, All, ◌≡◌, refl, arith,
  Result-cases, inl, inr,
}
use stprov.Crypto.{Crypto, IsReadFull}
use stprov.Secrets.{
  hex_digit, hex_encode, entropy_bytes, derive, new_entropy, new_unique_device_secret,
  basic_auth_password,
}

hex_digit_lem : (a b : ℕ) → a < 16 → b < 16 → hex_digit a ≡ hex_digit b → a ≡ b
unfolding hex_digit
hex_digit_lem a b ha hb e = ground arith

-- Bytes are determined by their hexadecimal digits.
pub hex_encode-injective :
    (a b : Bytes)
    → All (λ x. x < 256) a
    → All (λ x. x < 256) b
    → hex_encode a ≡ hex_encode b
    → a ≡ b
unfolding hex_encode
hex_encode-injective [] [] ha hb e = refl
hex_encode-injective [] (y ∷ b) ha hb e = cc
hex_encode-injective (x ∷ a) [] ha hb e = cc
hex_encode-injective (x ∷ a) (y ∷ b) ha hb e = ground (
  arith,
  hex_digit_lem (x / 16) (y / 16) (omega arith) (omega arith),
  hex_digit_lem (x % 16) (y % 16) (omega arith) (omega arith),
  hex_encode-injective a b ha.1 hb.1,
)

length-hex_encode : (b : Bytes) → length (hex_encode b) ≡ 2 * length b
unfolding hex_encode
length-hex_encode [] = refl
length-hex_encode (x ∷ b) = omega (arith, length-hex_encode b)

module _ (crypto : Crypto) (full : IsReadFull crypto) where
  -- Any derivation that succeeds yields 32 bytes.
  length-derive :
      (secret : Bytes) (label : Text) (n : ℕ) {b : Bytes}
      → derive crypto secret label n ≡ ok b
      → length b ≡ entropy_bytes
  unfolding derive
  length-derive secret label n h = full.fills entropy_bytes _ h

  -- A unique device secret is 32 bytes that are derived from 32 bytes of local entropy followed by
  -- the external entropy.
  pub new_unique_device_secret-mixes :
      (ext : Bytes) (r : crypto.Reader) {uds : Bytes}
      → (new_unique_device_secret crypto ext r).0 ≡ ok uds
      → (loc : Bytes) × ((new_entropy crypto r).0 ≡ ok loc)
        × (length loc ≡ entropy_bytes)
        × (derive crypto (loc ++ ext) (codes "uds") 1 ≡ ok uds)
        × (length uds ≡ entropy_bytes)
  unfolding new_unique_device_secret new_entropy
  new_unique_device_secret-mixes ext r {uds} h = elim (Result-cases (new_entropy crypto r).0) [
    | inr (e, p) ↦ ground arith
    | inl (loc, p) ↦
        let d : derive crypto (loc ++ ext) (codes "uds") 1 ≡ ok uds = ground arith in
        (loc, p, full.fills entropy_bytes r p, d, length-derive (loc ++ ext) (codes "uds") 1 d)
  ]

  -- The password of both programs is 64 hexadecimal digits.
  pub length-basic_auth_password :
      (otp : Bytes) {password : Text}
      → basic_auth_password crypto otp ≡ ok password
      → length password ≡ 64
  unfolding basic_auth_password
  length-basic_auth_password otp h =
      elim (Result-cases (derive crypto otp (codes "otp:basicAuthPassword") 1)) [
        | inr (e, p) ↦ ground arith
        | inl (pw, p) ↦
            ground
              (arith, length-hex_encode pw, length-derive otp (codes "otp:basicAuthPassword") 1 p)
      ]
