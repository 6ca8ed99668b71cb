-- ===== src/Hexify/Lines.antt =====
-- The hex dump (internal/hexify/hexify.go), line by line.
use stprov.Prelude.{
  ℕ, zero, suc, ◌+◌, ◌*◌, ◌/◌, ◌%◌, ◌≤◌, [], ◌∷◌, ◌++◌, Text, Bytes, length, set, replicate, codes,
  append_assoc, append-nil, length-append, ◌==◌, false, ◌≡◌, refl, sym, ◌∙◌, ap, arith,
}
use stprov.Hexify.{shown, columns, line_end, format_loop, format}

-- The hexadecimal columns of so many bytes from a position on, and the bytes as they are shown.
unfoldable pub columns_from : Bytes → ℕ → ℕ → Text
columns_from input i zero = []
columns_from input i (suc m) = columns input i ++ columns_from input (i + 1) m

unfoldable pub shown_from : Bytes → ℕ → ℕ → Text
shown_from input i zero = []
shown_from input i (suc m) = shown input i ∷ shown_from input (i + 1) m

-- A line: the columns of sixteen bytes, two spaces, and the bytes.
unfoldable pub line : Bytes → ℕ → Text
line input i = columns_from input i 16 ++ (codes "  " ++ shown_from input i 16 ++ codes "\n")

unfoldable pub lines : Bytes → ℕ → ℕ → Text
lines input i zero = []
lines input i (suc n) = line input i ++ lines input (i + 16) n

set-append :
    (done : Bytes) (x v : ℕ) (rest : Bytes)
    → set (done ++ x ∷ rest) (length done) v ≡ done ++ v ∷ rest
set-append [] x v rest = refl
set-append (y ∷ done) x v rest = ap (λ t. y ∷ t) (set-append done x v rest)

-- Rounds that stay within a line.
format_loop-part :
    (input : Bytes) (m r i : ℕ) (done gone rest : Bytes) (out : Text)
    → i % 16 ≡ length done
    → length gone ≡ m
    → length done + m ≤ 15
    → format_loop input (m + r) i (done ++ (gone ++ rest)) out
      ≡ format_loop input r
          (i + m)
          (done ++ (shown_from input i m ++ rest))
          (out ++ columns_from input i m)
unfolding format_loop columns_from shown_from line_end
format_loop-part input zero r i done [] rest out c e h =
    let same : i + 0 ≡ i = omega arith in
    let none_left : 0 + r ≡ r = omega arith in rw (same, none_left, append-nil out) refl
format_loop-part input zero r i done (x ∷ gone) rest out c e h = absurd (omega arith)
format_loop-part input (suc m) r i done [] rest out c e h = absurd (omega arith)
format_loop-part input (suc m) r i done (x ∷ gone) rest out c e h =
    let v = shown input i in
    let next =
      format_loop-part input m r (i + 1) (done ++ v ∷ []) gone rest (out ++ columns input i)
        (omega (arith, length-append done (v ∷ []))) (omega arith)
        (omega (arith, length-append done (v ∷ []))) in
    let within : (length done == 15) ≡ false = ground arith in
    let index : (i + 1) + m ≡ i + suc m = omega arith in
    let rounds : suc m + r ≡ suc (m + r) = omega arith in
    rw
      (
        rounds,
        format_loop,
        line_end,
        c,
        set-append done x v (gone ++ rest),
        within,
        append-nil (out ++ columns input i),
        ← index,
      )
      (rw
        (
          append_assoc done (v ∷ []) (gone ++ rest),
          append_assoc done (v ∷ []) (shown_from input (i + 1) m ++ rest),
          append_assoc out (columns input i) (columns_from input (i + 1) m),
        )
        at next)

length-shown_from : (input : Bytes) (i m : ℕ) → length (shown_from input i m) ≡ m
unfolding shown_from
length-shown_from input i zero = refl
length-shown_from input i (suc m) = omega (arith, length-shown_from input (i + 1) m)

columns_from-last :
    (input : Bytes) (i m : ℕ)
    → columns_from input i (suc m) ≡ columns_from input i m ++ columns input (i + m)
unfolding columns_from
columns_from-last input i zero =
    let same : i + 0 ≡ i = omega arith in rw (same, append-nil (columns input i)) refl
columns_from-last input i (suc m) =
    let index : (i + 1) + m ≡ i + suc m = omega arith in
    rw (columns_from-last input (i + 1) m, index)
      (sym
        (append_assoc (columns input i) (columns_from input (i + 1) m) (columns input (i + suc m))))

shown_from-last :
    (input : Bytes) (i m : ℕ)
    → shown_from input i (suc m) ≡ shown_from input i m ++ shown input (i + m) ∷ []
unfolding shown_from
shown_from-last input i zero = let same : i + 0 ≡ i = omega arith in rw same refl
shown_from-last input i (suc m) =
    let index : (i + 1) + m ≡ i + suc m = omega arith in
    rw (← index) (ap (λ t. shown input i ∷ t) (shown_from-last input (i + 1) m))

unsnoc :
    (n : ℕ) (b : Bytes)
    → length b ≡ suc n
    → (gone : Bytes) × (x : ℕ) × (length gone ≡ n) × (b ≡ gone ++ x ∷ [])
unsnoc n [] h = absurd (omega arith)
unsnoc zero (x ∷ []) h = ([], x, refl, refl)
unsnoc zero (x ∷ y ∷ b) h = absurd (omega arith)
unsnoc (suc n) (x ∷ b) h =
    let (gone, y, size, same) = unsnoc n b (omega arith) in
    (x ∷ gone, y, omega arith, ap (λ t. x ∷ t) same)

-- The last round of a line.
format_loop-last :
    (input : Bytes) (r i : ℕ) (done : Bytes) (x : ℕ) (out : Text)
    → i % 16 ≡ 15
    → length done ≡ 15
    → format_loop input (suc r) i (done ++ x ∷ []) out
      ≡ format_loop input r
          (i + 1)
          (done ++ shown input i ∷ [])
          ((out ++ columns input i) ++ (codes "  " ++ (done ++ shown input i ∷ []) ++ codes "\n"))
unfolding format_loop line_end
format_loop-last input r i done x out c e =
    let filled : set (done ++ x ∷ []) 15 (shown input i) ≡ done ++ shown input i ∷ [] =
      rw (← e) (set-append done x (shown input i) []) in
    rw (format_loop, line_end, c, filled) refl

-- Sixteen rounds write a line.
format_loop-line :
    (input : Bytes) (r i : ℕ) (buf : Bytes) (out : Text)
    → i % 16 ≡ 0
    → length buf ≡ 16
    → format_loop input (16 + r) i buf out
      ≡ format_loop input r (i + 16) (shown_from input i 16) (out ++ line input i)
unfolding line
format_loop-line input r i buf out c e =
    let (gone, x, size, same) = unsnoc 15 buf e in
    let rounds : 16 + r ≡ 15 + suc r = omega arith in
    let part = format_loop-part input 15 (suc r) i [] gone (x ∷ []) out c size (omega arith) in
    let done = shown_from input i 15 in
    let last =
      format_loop-last input r (i + 15) done x (out ++ columns_from input i 15) (omega arith)
        (length-shown_from input i 15) in
    let index : (i + 15) + 1 ≡ i + 16 = omega arith in
    let shown_all : shown_from input i 16 ≡ done ++ shown input (i + 15) ∷ [] =
      shown_from-last input i 15 in
    let columns_all : columns_from input i 16 ≡ columns_from input i 15 ++ columns input (i + 15) =
      columns_from-last input i 15 in
    let begin : format_loop input (16 + r) i buf out
        ≡ format_loop input (15 + suc r) i (gone ++ x ∷ []) out =
      rw (rounds, same) refl in
    begin
    ∙ part
    ∙ last
    ∙ rw
        (
          index,
          shown_all,
          columns_all,
          append_assoc out (columns_from input i 15) (columns input (i + 15)),
          append_assoc out (columns_from input i 15 ++ columns input (i + 15))
              (codes "  " ++ (done ++ shown input (i + 15) ∷ []) ++ codes "\n"),
        )
        refl

format_loop-lines :
    (input : Bytes) (n i : ℕ) (buf : Bytes) (out : Text)
    → i % 16 ≡ 0
    → length buf ≡ 16
    → format_loop input (n * 16) i buf out ≡ out ++ lines input i n
unfolding lines
format_loop-lines input zero i buf out c e = unfold format_loop in sym (append-nil out)
format_loop-lines input (suc n) i buf out c e =
    let rounds : suc n * 16 ≡ 16 + n * 16 = omega arith in
    rw
      (
        rounds,
        format_loop-line input (n * 16) i buf out c e,
        format_loop-lines input n (i + 16) (shown_from input i 16) (out ++ line input i)
            (omega arith) (length-shown_from input i 16),
      )
      (append_assoc out (line input i) (lines input (i + 16) n))

-- The dump is one line for every sixteen bytes, and for those that are left: the position, the bytes
-- in hexadecimal, and the bytes as characters.
pub format-lines : (input : Bytes) → format input ≡ lines input 0 ((length input + 15) / 16)
unfolding format
format-lines input =
    format_loop-lines input ((length input + 15) / 16) 0 (replicate 16 0) [] refl refl
