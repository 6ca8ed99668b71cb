-- ===== src/Network/Interfaces/Fold.antt =====
-- Loops of `ForEachInterface` (internal/network/network.go) whose callback only sets variables.
use stprov.Prelude.{
  List, [], ◌∷◌, ◌==◌, if◌then◌else◌, ok, err, Result-cases, Bool-cases, inl, inr, ◌≡◌, refl,
}
use stprov.Prelude.Bits.{bit_and}
use stprov.Prelude.Exec.{Exec}
use stprov.Network.Netlink.{Netlink, Link, Interface}
use stprov.Network.Interfaces.{for_each_loop}

unfoldable pub fold : {A : Type 0} → (Link → A → A) → A → List Link → A
fold step a [] = a
fold step a (l ∷ ls) = fold step (step l a) ls

module _ (nl : Netlink) where
  open nl use {State, link_by_name}

  -- The links of the interfaces but the loopback ones, up to the first that is gone.
  unfoldable pub links_of : List Interface → State → List Link
  links_of [] s = []
  links_of (i ∷ is) s =
      let rest = links_of is s in
      if bit_and i.flags nl.flag_loopback == 0
      then elim (link_by_name i.name s) [ ok link ↦ link ∷ rest | err e ↦ [] ]
      else rest

  abbrev pub callback : {A : Type 0} → (Link → A → A) → Link → Exec (State × A) (Unit {0})
  callback step link t = (ok tt, (t.0, step link t.1))

  pub loop-fold :
      {A : Type 0} (step : Link → A → A) (is : List Interface) (s : State) (a : A)
      → (for_each_loop nl (callback step) is (s, a)).1 ≡ (s, fold step a (links_of is s))
  unfolding for_each_loop fold links_of
  loop-fold step [] s a = refl
  loop-fold step (i ∷ is) s a = elim (Bool-cases (bit_and i.flags nl.flag_loopback == 0)) [
    | inr f ↦ rw f (loop-fold step is s a)
    | inl t ↦ elim (Result-cases (link_by_name i.name s)) [
      | inr (e, q) ↦ rw (t, q) refl
      | inl (l, q) ↦ rw (t, q) (loop-fold step is s (step l a))
    ]
  ]
