-- ===== src/Options/Cidr.antt =====
-- `DecodeSafeCIDR` and `appendPrefixLength` (internal/options/options.go).
use stprov.Prelude.{
  ℕ, zero, suc, ◌≤◌, ◌<◌, true, false, [], ◌∷◌, ◌++◌, Text, codes, length, get_or, set,
  length-append, contains, has_suffix, text_eq_refl, All, ◌⊎◌, inl, ◌≡◌, ◌≢◌, refl, ap, ◌∙◌, arith,
  append-nil, append_assoc,
}
use stprov.Options.{decode_loop, decode_safe_cidr, append_prefix_length}

abbrev pub Lacks : ℕ → Text → Type 0
Lacks c = All (λ x. x ≢ c)

contains-Lacks : (c : ℕ) (s : Text) → Lacks c s → contains s (c ∷ []) ≡ false
unfolding contains
contains-Lacks c [] h = refl
contains-Lacks c (x ∷ s) h = ground (arith, contains-Lacks c s h.1)

Lacks-middle :
    (c m : ℕ) (pre post : Text) → Lacks c pre → m ≢ c → Lacks c post → Lacks c (pre ++ m ∷ post)
Lacks-middle c m [] post h k j = (k, j)
Lacks-middle c m (x ∷ pre) post h k j = (h.0, Lacks-middle c m pre post h.1 k j)

-- The index of the last byte of `pre ++ m ∷ []`, and the bytes behind it.
get_or_middle : (pre post : Text) (m : ℕ) → get_or (pre ++ m ∷ post) (length pre) 0 ≡ m
get_or_middle [] post m = refl
get_or_middle (x ∷ pre) post m = get_or_middle pre post m

set_middle : (pre post : Text) (m c : ℕ) → set (pre ++ m ∷ post) (length pre) c ≡ pre ++ c ∷ post
set_middle [] post m c = refl
set_middle (x ∷ pre) post m c = ap (λ t. x ∷ t) (set_middle pre post m c)

length-snoc : (pre : Text) (x : ℕ) → length (pre ++ x ∷ []) ≡ suc (length pre)
length-snoc pre x = omega (arith, length-append pre (x ∷ []))

decode_loop_skip :
    (pre post : Text) (x : ℕ)
    → x ≢ b'm'
    → decode_loop (pre ++ x ∷ post) (suc (length pre)) ≡ decode_loop (pre ++ x ∷ post) (length pre)
unfolding decode_loop
decode_loop_skip pre post x h = ground (arith, get_or_middle pre post x)

-- A text without `m` behind index `length pre` is scanned down to there.
decode_loop-append :
    (pre post : Text)
    → Lacks b'm' post
    → decode_loop (pre ++ post) (length (pre ++ post)) ≡ decode_loop (pre ++ post) (length pre)
decode_loop-append pre [] h = rw append-nil
decode_loop-append pre (x ∷ post) h =
    let whole : (pre ++ x ∷ []) ++ post ≡ pre ++ x ∷ post = append_assoc pre (x ∷ []) post in
    rw (← whole) (
      decode_loop-append (pre ++ x ∷ []) post h.1
      ∙ rw (length-snoc pre x, whole) (decode_loop_skip pre post x h.0))

decode_loop_hit :
    (pre post : Text) → decode_loop (pre ++ b'm' ∷ post) (suc (length pre)) ≡ pre ++ b'/' ∷ post
unfolding decode_loop
decode_loop_hit pre post =
    ground (arith, get_or_middle pre post b'm', set_middle pre post b'm' b'/')

decode_loop_middle :
    (pre post : Text)
    → Lacks b'm' post
    → decode_loop (pre ++ b'm' ∷ post) (length (pre ++ b'm' ∷ post)) ≡ pre ++ b'/' ∷ post
decode_loop_middle pre post h =
    let whole : (pre ++ b'm' ∷ []) ++ post ≡ pre ++ b'm' ∷ post =
      append_assoc pre (b'm' ∷ []) post in
    rw (← whole) (
      decode_loop-append (pre ++ b'm' ∷ []) post h
      ∙ rw (length-snoc pre b'm', whole) (decode_loop_hit pre post))

-- Writing `m` for the one `/` of a text is undone, if no `m` stands behind it.
pub decode_safe_cidr-m :
    (pre post : Text)
    → Lacks b'/' pre
    → Lacks b'/' post
    → Lacks b'm' post
    → decode_safe_cidr (pre ++ b'm' ∷ post) ≡ pre ++ b'/' ∷ post
unfolding decode_safe_cidr
decode_safe_cidr-m pre post hp hq hm =
    rw
      (contains-Lacks b'/' (pre ++ b'm' ∷ post)
        (Lacks-middle b'/' b'm' pre post hp (omega arith) hq))
      (decode_loop_middle pre post hm)

contains-set : (s : Text) (i : ℕ) → i < length s → contains (set s i b'/') (codes "/") ≡ true
unfolding contains
contains-set [] i h = absurd (omega arith)
contains-set (x ∷ s) zero h = ground arith
contains-set (x ∷ s) (suc i) h = ground (arith, contains-set s i)

decode_loop-cases :
    (s : Text) (n : ℕ)
    → n ≤ length s
    → (decode_loop s n ≡ s) ⊎ (contains (decode_loop s n) (codes "/") ≡ true)
unfolding decode_loop
decode_loop-cases s zero h = inl refl
decode_loop-cases s (suc i) h =
    ground (arith, contains-set s i, decode_loop-cases s i (omega arith))

-- A decoded text is decoded to itself: the option may be decoded again.
pub decode_safe_cidr_idem : (s : Text) → decode_safe_cidr (decode_safe_cidr s) ≡ decode_safe_cidr s
unfolding decode_safe_cidr
decode_safe_cidr_idem s = ground (arith, decode_loop-cases s (length s) (omega arith))

has_suffix-append : (s p : Text) → has_suffix (s ++ p) p ≡ true
unfolding has_suffix
has_suffix-append [] [] = refl
has_suffix-append [] (x ∷ p) = ground (arith, text_eq_refl (x ∷ p))
has_suffix-append (x ∷ s) p = ground (arith, has_suffix-append s p)

contains_colon-append :
    (s p : Text) → Lacks b':' p → contains (s ++ p) (codes ":") ≡ contains s (codes ":")
unfolding contains
contains_colon-append [] p h = contains-Lacks b':' p h
contains_colon-append (x ∷ s) p h = ground (arith, contains_colon-append s p h)

-- The prefix length is appended once: an address that has it is left alone.
pub append_prefix_length_idem :
    (s : Text) → append_prefix_length (append_prefix_length s) ≡ append_prefix_length s
unfolding append_prefix_length
append_prefix_length_idem s = ground (
  arith,
  has_suffix-append s (codes "/128"),
  has_suffix-append s (codes "/32"),
  contains_colon-append s (codes "/128") (omega arith),
  contains_colon-append s (codes "/32") (omega arith),
)
