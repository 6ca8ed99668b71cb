-- ===== src/Options/Default.antt =====
-- What `DefaultInterfaces` (internal/options/options.go) chooses.
use stprov.Prelude.Bits.{bit_and}
use stprov.Prelude.{
  true, false, ◌⊎◌, ◌≢◌, codes, has_prefix, arith, Error, Result, err, List, [], ◌∷◌, ◌++◌, Bytes,
  if◌then◌else◌, append-nil, append_assoc, ok, Bool-cases, inl, inr, ◌≡◌, refl, sym, ◌∙◌,
}
use stprov.Prelude.Int.{ℤ}
use stprov.Network.Netlink.{Netlink, Link, Interface}
use stprov.Network.Interfaces.{for_each_interface, variables}
use stprov.Network.Interfaces.Fold.{fold, links_of, loop-fold}
use stprov.Options.Interfaces.{
  is_candidate, collect, raise_link, some_candidate, default_interfaces,
}

module _ (nl : Netlink) where
  open nl use {State, interfaces}

  -- A link that is up and running, has a hardware address and no name for a bond. Of the two flags
  -- the second is IFF_RUNNING of linux/if.h.
  pub record IsDefault (l : Link) : Type 0 where
    pub no_bond : has_prefix l.name (codes "bond") ≡ false
    pub has_address : nl.mac_string l.hardware_addr ≢ []
    pub is_up : bit_and l.flags nl.flag_up ≢ 0
    pub is_running : bit_and l.raw_flags 64 ≢ 0

  -- The addresses of the links that are such links, in order.
  pub data Selected : List Link → List Bytes → Type 0 where
    no_more : Selected [] []
    selected :
        (l : Link) (ls : List Link) (macs : List Bytes)
        → IsDefault l
        → Selected ls macs
        → Selected (l ∷ ls) (l.hardware_addr ∷ macs)
    left_out :
        (l : Link) (ls : List Link) (macs : List Bytes)
        → ¬ IsDefault l
        → Selected ls macs
        → Selected (l ∷ ls) macs

  is_candidate-IsDefault :
      (l : Link)
      → ((is_candidate nl l ≡ true) × IsDefault l) ⊎ ((is_candidate nl l ≡ false) × (¬ IsDefault l))
  unfolding is_candidate
  is_candidate-IsDefault l = elim (Bool-cases (is_candidate nl l)) [
    | inl t ↦ inl (
      t,
      record {
        no_bond = ground arith;
        has_address = ground arith;
        is_up = ground arith;
        is_running = ground arith;
      },
    )
    | inr f ↦ inr (f, λ d. absurd (ground (arith, d.no_bond, d.has_address, d.is_up, d.is_running)))
  ]

  fold-Selected :
      (ls : List Link) (macs : List Bytes)
      → (found : List Bytes) × Selected ls found
        × (fold (λ l b. if is_candidate nl l then b ++ l.hardware_addr ∷ [] else b) macs ls
            ≡ macs ++ found)
  unfolding fold
  fold-Selected [] macs = ([], no_more, sym (append-nil macs))
  fold-Selected (l ∷ ls) macs = elim (is_candidate-IsDefault l) [
    | inl (t, d) ↦
        let (found, s, e) = fold-Selected ls (macs ++ l.hardware_addr ∷ []) in
        (
          l.hardware_addr ∷ found,
          selected l ls found d s,
          rw t (e ∙ append_assoc macs (l.hardware_addr ∷ []) found),
        )
    | inr (f, d) ↦
        let (found, s, e) = fold-Selected ls macs in (found, left_out l ls found d s, rw f e)
  ]

  -- The state once the links have been set up, as well as possible.
  abbrev pub raised : ℤ → State → State
  raised wait s = (variables nl (for_each_interface nl (raise_link nl wait)) tt s).1

  -- The addresses are chosen, and are some; or there are none, which is an error.
  abbrev pub Chosen : List Bytes → Result (List Bytes) → Type 0
  Chosen macs r = ((macs ≢ []) × (r ≡ ok macs)) ⊎ ((macs ≡ []) × (e : Error) × (r ≡ err e))

  some_candidate-Chosen : (macs : List Bytes) → Chosen macs (some_candidate nl macs)
  some_candidate-Chosen [] = inr (refl, _, refl)
  some_candidate-Chosen (mac ∷ macs) = inl (λ e. cc, refl)

  -- Once the links have been set up, as well as possible, the interfaces that are chosen are those
  -- that are up and running, have a hardware address and a name that does not start with "bond", in
  -- order, of all interfaces but the loopback ones up to the first that is gone; and if there is none,
  -- that is an error.
  pub default_interfaces-Selected :
      (wait : ℤ) (s : State) (is : List Interface)
      → interfaces (raised wait s) ≡ ok is
      → (macs : List Bytes) × Selected (links_of nl is (raised wait s)) macs
        × Chosen macs (default_interfaces nl wait s).0
        × ((default_interfaces nl wait s).1 ≡ raised wait s)
  unfolding default_interfaces for_each_interface collect
  default_interfaces-Selected wait s is e =
      let t = raised wait s in
      let looped =
        loop-fold nl (λ l b. if is_candidate nl l then b ++ l.hardware_addr ∷ [] else b) is t [] in
      let (macs, chosen, found) = fold-Selected (links_of nl is t) [] in
      (macs, chosen, rw (e, looped, found) (some_candidate-Chosen macs), rw (e, looped) refl)
