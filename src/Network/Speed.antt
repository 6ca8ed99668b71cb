-- ===== src/Network/Speed.antt =====
-- `linksByDescendingSpeed` (internal/network/network.go): sorted, stable, and nothing lost.
use mathlib.Core.List.{Perm}
use mathlib.Core.List.Perm
use stprov.Prelude.{
  ◌==◌, Bool, true, false, List, [], ◌∷◌, ◌≡◌, inl, inr, refl, ◌∙◌, arith, Bool-cases,
  if◌then◌else◌,
}
use stprov.Prelude.Int.{ℤ, pos, negsuc, int_ltb}
use stprov.Network.{LinkWithSpeed, slower, insert, sort_stable}

-- i == j
abbrev pub same_speed : ℤ → ℤ → Bool
same_speed (pos m) (pos n) = m == n
same_speed (pos m) (negsuc n) = false
same_speed (negsuc m) (pos n) = false
same_speed (negsuc m) (negsuc n) = m == n

-- No link is slower than one behind it.
module _ {ℓ} {Link : Type ℓ} where
  abbrev pub NotSlower : LinkWithSpeed Link → List (LinkWithSpeed Link) → Type 0
  NotSlower a [] = Unit
  NotSlower a (b ∷ bs) = (slower a b ≡ false) × NotSlower a bs

  abbrev pub IsDescending : List (LinkWithSpeed Link) → Type 0
  IsDescending [] = Unit
  IsDescending (a ∷ as') = NotSlower a as' × IsDescending as'

  -- The links of one speed, in order.
  abbrev pub of_speed : ℤ → List (LinkWithSpeed Link) → List (LinkWithSpeed Link)
  of_speed v [] = []
  of_speed v (a ∷ as') =
      if same_speed a.bits_per_second v then a ∷ of_speed v as' else of_speed v as'

int_ltb_trans : (i j k : ℤ) → int_ltb i j ≡ false → int_ltb j k ≡ false → int_ltb i k ≡ false
int_ltb_trans i j k h g = ground arith

int_ltb_asymm : (i j : ℤ) → int_ltb i j ≡ true → int_ltb j i ≡ false
int_ltb_asymm i j h = ground arith

other_speed : (i j v : ℤ) → int_ltb i j ≡ true → same_speed i v ≡ true → same_speed j v ≡ false
other_speed i j v h g = ground arith

module _ {ℓ} {Link : Type ℓ} where
  NotSlower-trans :
      (a b : LinkWithSpeed Link) (bs : List (LinkWithSpeed Link))
      → slower a b ≡ false
      → NotSlower b bs
      → NotSlower a bs
  NotSlower-trans a b [] h k = tt
  NotSlower-trans a b (c ∷ bs) h k = (
    int_ltb_trans a.bits_per_second b.bits_per_second c.bits_per_second h k.0,
    NotSlower-trans a b bs h k.1,
  )

  NotSlower-insert :
      (c a : LinkWithSpeed Link) (bs : List (LinkWithSpeed Link))
      → slower c a ≡ false
      → NotSlower c bs
      → NotSlower c (insert a bs)
  unfolding insert
  NotSlower-insert c a [] h k = (h, tt)
  NotSlower-insert c a (b ∷ bs) h k = elim (Bool-cases (slower a b)) [
    | inl t ↦ rw t (k.0, NotSlower-insert c a bs h k.1)
    | inr f ↦ rw f (h, k)
  ]

  insert-IsDescending :
      (a : LinkWithSpeed Link) (bs : List (LinkWithSpeed Link))
      → IsDescending bs
      → IsDescending (insert a bs)
  unfolding insert
  insert-IsDescending a [] h = (tt, tt)
  insert-IsDescending a (b ∷ bs) h = elim (Bool-cases (slower a b)) [
    | inl t ↦ rw t (
      NotSlower-insert b a bs (int_ltb_asymm a.bits_per_second b.bits_per_second t) h.0,
      insert-IsDescending a bs h.1,
    )
    | inr f ↦ rw f ((f, NotSlower-trans a b bs f h.0), h)
  ]

  -- In the sorted list no link is slower than one behind it.
  pub sort_stable-IsDescending :
      (devices : List (LinkWithSpeed Link)) → IsDescending (sort_stable devices)
  unfolding sort_stable
  sort_stable-IsDescending [] = tt
  sort_stable-IsDescending (a ∷ as') =
      insert-IsDescending a (sort_stable as') (sort_stable-IsDescending as')

  insert-perm :
      (a : LinkWithSpeed Link) (bs : List (LinkWithSpeed Link)) → Perm (insert a bs) (a ∷ bs)
  unfolding insert
  insert-perm a [] = Perm.refl (a ∷ [])
  insert-perm a (b ∷ bs) = elim (Bool-cases (slower a b)) [
    | inl t ↦ rw t (Perm.trans (Perm.cons b (insert-perm a bs)) (Perm.swap a b bs))
    | inr f ↦ rw f (Perm.refl (a ∷ b ∷ bs))
  ]

  -- Sorting the links by speed loses none and adds none.
  pub sort_stable-perm : (devices : List (LinkWithSpeed Link)) → Perm (sort_stable devices) devices
  unfolding sort_stable
  sort_stable-perm [] = Perm.refl []
  sort_stable-perm (a ∷ as') =
      Perm.trans (insert-perm a (sort_stable as')) (Perm.cons a (sort_stable-perm as'))

  of_speed-insert :
      (v : ℤ) (a : LinkWithSpeed Link) (bs : List (LinkWithSpeed Link))
      → of_speed v (insert a bs) ≡ of_speed v (a ∷ bs)
  unfolding insert
  of_speed-insert v a [] = refl
  of_speed-insert v a (b ∷ bs) = elim (Bool-cases (slower a b)) [
    | inr f ↦ rw f refl
    | inl t ↦ elim (Bool-cases (same_speed a.bits_per_second v)) [
      | inr g ↦ rw (t, of_speed-insert v a bs, g) refl
      | inl g ↦
          rw (t, of_speed-insert v a bs, g, other_speed a.bits_per_second b.bits_per_second v t g)
            refl
    ]
  ]

  -- Links of one speed stay in the order in which they were tested.
  pub of_speed-sort_stable :
      (v : ℤ) (devices : List (LinkWithSpeed Link))
      → of_speed v (sort_stable devices) ≡ of_speed v devices
  unfolding sort_stable
  of_speed-sort_stable v [] = refl
  of_speed-sort_stable v (a ∷ as') =
      of_speed-insert v a (sort_stable as') ∙ rw (of_speed-sort_stable v as') refl
