-- ===== src/Hexify/Layout.antt =====
-- The shape of the hex dump (internal/hexify/hexify.go).
use stprov.Prelude.{
  ℕ, zero, suc, ◌+◌, ◌-◌, ◌*◌, ◌/◌, ◌%◌, ◌≤◌, ◌<◌, [], ◌∷◌, ◌++◌, Text, Bytes, length, get_or, set,
  replicate, decimal, ◌≡◌, ◌⊎◌, refl, arith, All, All-append, digits_of,
}
use stprov.Prelude.{
  take, Bool-cases, ==_iff, ◌∙◌, ap, Bool, true, false, ltb, ◌==◌, if◌then◌else◌, codes, inl, inr,
}
use stprov.Hexify.{padded, hex_byte, shown, columns, line_end, format_loop, format}

-- No control character and no byte above `~`, but for the line feeds.
abbrev pub IsPlain : ℕ → Type 0
IsPlain c = ((32 ≤ c) × (c ≤ 126)) ⊎ (c ≡ 10)

All-if :
    (b : Bool) (xs ys : Text) → All IsPlain xs → All IsPlain ys → All IsPlain (if b then xs else ys)
All-if true xs ys hx hy = hx
All-if false xs ys hx hy = hy

All-replicate : (n c : ℕ) → IsPlain c → All IsPlain (replicate n c)
All-replicate zero c h = tt
All-replicate (suc n) c h = (h, All-replicate n c h)

digits_of-IsPlain : (f n : ℕ) (acc : Text) → All IsPlain acc → All IsPlain (digits_of f n acc)
unfolding digits_of
digits_of-IsPlain zero n acc h = h
digits_of-IsPlain (suc f) n acc h =
    let next : Text = (b'0' + n % 10) ∷ acc in
    let plain : All IsPlain next = (inl (omega arith, omega arith), h) in
    All-if (ltb n 10) next (digits_of f (n / 10) next) plain
      (digits_of-IsPlain f (n / 10) next plain)

padded-IsPlain : (n : ℕ) → All IsPlain (padded n)
unfolding padded decimal
padded-IsPlain n =
    All-append IsPlain _ _ (All-replicate (4 - length (decimal n)) b' ' (omega arith))
      (digits_of-IsPlain (suc n) n [] tt)

hex_byte-IsPlain : (b : ℕ) → b < 256 → All IsPlain (hex_byte b)
unfolding hex_byte
hex_byte-IsPlain b h = (ground arith, (ground arith, tt))

get_or-lt : (bs : Bytes) (i : ℕ) → All (λ b. b < 256) bs → get_or bs i 0 < 256
get_or-lt [] i h = omega arith
get_or-lt (b ∷ bs) zero h = h.0
get_or-lt (b ∷ bs) (suc i) h = get_or-lt bs i h.1

columns-IsPlain : (bs : Bytes) (i : ℕ) → All (λ b. b < 256) bs → All IsPlain (columns bs i)
unfolding columns
columns-IsPlain bs i h =
    All-append IsPlain _ _
      (All-append IsPlain _ _ (All-if (i % 16 == 0) (padded i) [] (padded-IsPlain i) tt)
        (All-if (i % 8 == 0) (codes " ") [] (omega arith) tt))
      (All-if (ltb i (length bs)) (codes " " ++ hex_byte (get_or bs i 0)) (codes "   ")
        (omega arith, hex_byte-IsPlain (get_or bs i 0) (get_or-lt bs i h)) (omega arith))

shown-IsPlain : (bs : Bytes) (i : ℕ) → IsPlain (shown bs i)
unfolding shown
shown-IsPlain bs i = ground arith

-- The buffer is plain up to the position that round `i` fills.
take-set-IsPlain :
    (xs : Text) (i c : ℕ)
    → IsPlain c
    → All IsPlain (take i xs)
    → All IsPlain (take (suc i) (set xs i c))
take-set-IsPlain [] i c h hs = tt
take-set-IsPlain (x ∷ xs) zero c h hs = (h, tt)
take-set-IsPlain (x ∷ xs) (suc i) c h hs = (hs.0, take-set-IsPlain xs i c h hs.1)

take_all : (xs : Text) (n : ℕ) → length xs ≤ n → take n xs ≡ xs
take_all [] zero h = refl
take_all [] (suc n) h = refl
take_all (x ∷ xs) zero h = absurd (omega arith)
take_all (x ∷ xs) (suc n) h = ap (λ t. x ∷ t) (take_all xs n (omega arith))

pub length-set : (xs : Text) (i c : ℕ) → length (set xs i c) ≡ length xs
length-set [] i c = refl
length-set (x ∷ xs) zero c = refl
length-set (x ∷ xs) (suc i) c = ap suc (length-set xs i c)

-- The position after the one that round `i` filled.
next_position : (i : ℕ) → ((i + 1) % 16 ≡ suc (i % 16)) ⊎ (((i + 1) % 16 ≡ 0) × (i % 16 ≡ 15))
next_position i = omega arith

module _ (bs : Bytes) (h : All (λ b. b < 256) bs) where
  line_end-IsPlain :
      (i : ℕ) (buf : Bytes)
      → length buf ≡ 16
      → All IsPlain (take (suc (i % 16)) buf)
      → All IsPlain (line_end i buf)
  unfolding line_end
  line_end-IsPlain i buf e p = elim (Bool-cases (i % 16 == 15)) [
    | inr f ↦ rw f tt
    | inl t ↦
        let last : i % 16 ≡ 15 = (==_iff (i % 16) 15).0 t in
        let full : take (suc (i % 16)) buf ≡ buf = take_all buf (suc (i % 16)) (omega arith) in
        rw t (
          All-append IsPlain (codes "  " ++ buf) (codes "\n")
            (All-append IsPlain (codes "  ") buf (omega arith) (rw full at p)) (omega arith))
  ]

  format_loop-IsPlain :
      (rounds i : ℕ) (buf : Bytes) (out : Text)
      → length buf ≡ 16
      → All IsPlain (take (i % 16) buf)
      → All IsPlain out
      → All IsPlain (format_loop bs rounds i buf out)
  unfolding format_loop
  format_loop-IsPlain zero i buf out e p o = o
  format_loop-IsPlain (suc rounds) i buf out e p o =
      let c = shown bs i in
      let buf' = set buf (i % 16) c in
      let e' : length buf' ≡ 16 = length-set buf (i % 16) c ∙ e in
      let p' : All IsPlain (take (suc (i % 16)) buf') =
        take-set-IsPlain buf (i % 16) c (shown-IsPlain bs i) p in
      let next : All IsPlain (take ((i + 1) % 16) buf') = elim (next_position i) [
        | inl q ↦ rw q p'
        | inr (q, _) ↦ rw q tt
      ] in
      format_loop-IsPlain rounds (i + 1) buf' ((out ++ columns bs i) ++ line_end i buf') e' next (
        All-append IsPlain (out ++ columns bs i) (line_end i buf')
          (All-append IsPlain out (columns bs i) o (columns-IsPlain bs i h))
          (line_end-IsPlain i buf' e' p'))

  -- The dump of any bytes holds printable ASCII and line feeds only.
  pub format-IsPlain : All IsPlain (format bs)
  unfolding format
  format-IsPlain =
      format_loop-IsPlain ((length bs + 15) / 16 * 16) 0 (replicate 16 0) [] (omega arith) tt tt
