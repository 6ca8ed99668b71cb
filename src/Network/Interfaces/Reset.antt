-- ===== src/Network/Interfaces/Reset.antt =====
-- What `ResetInterfaces` (internal/network/network.go) leaves.
use stprov.Prelude.{
  Bool, false, Option, none, some, List, [], ◌∷◌, ◌==◌, if◌then◌else◌, All, In, Result, ok, err,
  Result-cases, Error, Bool-cases, inl, inr, ◌≡◌, refl, sym, arith,
}
use mathlib.Core.Path.{subst, ap, ◌∙◌}
use stprov.Prelude.Bits.{bit_and}
use stprov.Prelude.Exec.{Exec}
use stprov.Network.Netlink.{Netlink, Link, Interface}
use stprov.Network.Interfaces.{
  for_each_loop, for_each_interface, reset_link, reset_interfaces, del_addrs, listed, kernel,
}

-- What the kernel does: an address that was deleted is not listed any more, a link that was set down
-- is not up, and neither call adds an address or sets a link up.
pub record IsKernel (nl : Netlink) (is_up : Link → nl.State → Bool) : Type 0 where
  pub del-gone :
      (l : Link) (a : nl.Addr) (s : nl.State)
      → (nl.addr_del l a s).0 ≡ ok tt
      → ¬ In a (nl.addr_list l (nl.addr_del l a s).1).0
  pub del-listed :
      (l l' : Link) (a b : nl.Addr) (s : nl.State)
      → In b (nl.addr_list l' (nl.addr_del l a s).1).0
      → In b (nl.addr_list l' s).0
  pub del-up :
      (l l' : Link) (a : nl.Addr) (s : nl.State)
      → is_up l' s ≡ false
      → is_up l' (nl.addr_del l a s).1 ≡ false
  pub down-down :
      (l : Link) (s : nl.State)
      → (nl.link_set_down l s).0 ≡ ok tt
      → is_up l (nl.link_set_down l s).1 ≡ false
  pub down-listed :
      (l l' : Link) (b : nl.Addr) (s : nl.State)
      → In b (nl.addr_list l' (nl.link_set_down l s).1).0
      → In b (nl.addr_list l' s).0
  pub down-up :
      (l l' : Link) (s : nl.State) → is_up l' s ≡ false → is_up l' (nl.link_set_down l s).1 ≡ false

module _ (nl : Netlink) (is_up : Link → nl.State → Bool) (k : IsKernel nl is_up) where
  open nl use {State, Addr, addr_list, addr_del, link_set_down, interfaces, link_by_name}

  -- A later state has no address and no link up that the earlier one has not.
  record Shrinks (s s' : State) : Type 0 where
    kept : (l : Link) (b : Addr) → In b (addr_list l s').0 → In b (addr_list l s).0
    stays : (l : Link) → is_up l s ≡ false → is_up l s' ≡ false

  Shrinks-refl : (s : State) → Shrinks s s
  Shrinks-refl s = record { kept = λ l b m. m; stays = λ l d. d }

  Shrinks-trans : {s t u : State} → Shrinks s t → Shrinks t u → Shrinks s u
  Shrinks-trans a b = record {
    kept = λ l x m. a.kept l x (b.kept l x m);
    stays = λ l d. b.stays l (a.stays l d);
  }

  abbrev pub IsReset : Link → State → Type 0
  IsReset l s = ((a : Addr) → ¬ In a (addr_list l s).0) × (is_up l s ≡ false)

  IsReset-Shrinks : (l : Link) {s t : State} → Shrinks s t → IsReset l s → IsReset l t
  IsReset-Shrinks l h (none_listed, down) = ((λ a m. none_listed a (h.kept l a m)), h.stays l down)

  addr_del-Shrinks : (l : Link) (a : Addr) (s : State) → Shrinks s (addr_del l a s).1
  addr_del-Shrinks l a s = record {
    kept = λ l' b m. k.del-listed l l' a b s m;
    stays = λ l' d. k.del-up l l' a s d;
  }

  link_set_down-Shrinks : (l : Link) (s : State) → Shrinks s (link_set_down l s).1
  link_set_down-Shrinks l s = record {
    kept = λ l' b m. k.down-listed l l' b s m;
    stays = λ l' d. k.down-up l l' s d;
  }

  del_addrs-Shrinks : (l : Link) (as' : List Addr) (s : State) → Shrinks s (del_addrs nl l as' s).1
  unfolding del_addrs
  del_addrs-Shrinks l [] s = Shrinks-refl s
  del_addrs-Shrinks l (a ∷ as') s = elim (Result-cases (addr_del l a s).0) [
    | inl (u, e) ↦
        rw e (Shrinks-trans (addr_del-Shrinks l a s) (del_addrs-Shrinks l as' (addr_del l a s).1))
    | inr (e, q) ↦ rw q (addr_del-Shrinks l a s)
  ]

  del_addrs-gone :
      (l : Link) (as' : List Addr) (s : State)
      → (del_addrs nl l as' s).0 ≡ ok tt
      → (b : Addr) → In b as'
      → ¬ In b (addr_list l (del_addrs nl l as' s).1).0
  unfolding del_addrs
  del_addrs-gone l [] s h b m = absurd m
  del_addrs-gone l (a ∷ as') s h b m = elim (Result-cases (addr_del l a s).0) [
    | inr (e, q) ↦ absurd (ground arith)
    | inl (u, e) ↦
        let t = (addr_del l a s).1 in
        let rest : (del_addrs nl l as' t).0 ≡ ok tt = ground arith in
        let shrinks = del_addrs-Shrinks l as' t in
        rw e (elim m [
          | inl same ↦ λ still. k.del-gone l a s e (
              shrinks.kept l a
                (subst (λ x. In x (addr_list l (del_addrs nl l as' t).1).0) same still))
          | inr later ↦ del_addrs-gone l as' t rest b later
        ])
  ]

  reset_link-Shrinks : (l : Link) (s : State) → Shrinks s (reset_link nl l s).1
  unfolding reset_link
  reset_link-Shrinks l s = elim (Result-cases (listed nl (addr_list l s))) [
    | inr (e, q) ↦ rw q (Shrinks-refl s)
    | inl (as', q) ↦
        let deleted = del_addrs-Shrinks l as' s in
        elim (Result-cases (del_addrs nl l as' s).0) [
          | inr (e, r) ↦ rw (q, r) deleted
          | inl (u, r) ↦
              rw (q, r) (Shrinks-trans deleted (link_set_down-Shrinks l (del_addrs nl l as' s).1))
        ]
  ]

  listed-eq_ok : (r : List Addr × Option Error) {as' : List Addr} → listed nl r ≡ ok as' → r.0 ≡ as'
  listed-eq_ok (as', none) h = ground arith
  listed-eq_ok (as', some e) h = cc

  reset_link-IsReset :
      (l : Link) (s : State) → (reset_link nl l s).0 ≡ ok tt → IsReset l (reset_link nl l s).1
  unfolding reset_link
  reset_link-IsReset l s h = elim (Result-cases (listed nl (addr_list l s))) [
    | inr (e, q) ↦ absurd (ground arith)
    | inl (as', q) ↦ elim (Result-cases (del_addrs nl l as' s).0) [
      | inr (e, r) ↦ absurd (ground arith)
      | inl (u, r) ↦
          let t = (del_addrs nl l as' s).1 in
          let set_down : (link_set_down l t).0 ≡ ok tt = ground arith in
          let before = listed-eq_ok (addr_list l s) q in
          rw (q, r)
            (
              (λ a m.
                  let still = k.down-listed l l a t m in
                  del_addrs-gone l as' s r a
                    (rw (sym before) ((del_addrs-Shrinks l as' s).kept l a still)) still),
              k.down-down l t set_down,
            )
    ]
  ]

  abbrev callback : Link → Exec (State × Unit {0}) (Unit {0})
  callback link = kernel nl (reset_link nl link)

  -- The links that the loop comes to, each as it is found then.
  unfoldable pub visits : List Interface → State → List Link
  visits [] s = []
  visits (i ∷ is) s =
      let rest = visits is s in
      if bit_and i.flags nl.flag_loopback == 0
      then elim (link_by_name i.name s) [
        | ok link ↦ link ∷ visits is (reset_link nl link s).1
        | err e ↦ []
      ]
      else rest

  loop-Shrinks :
      (is : List Interface) (s : State) → Shrinks s (for_each_loop nl callback is (s, tt)).1.0
  unfolding for_each_loop
  loop-Shrinks [] s = Shrinks-refl s
  loop-Shrinks (i ∷ is) s = elim (Bool-cases (bit_and i.flags nl.flag_loopback == 0)) [
    | inr f ↦ rw f (loop-Shrinks is s)
    | inl t ↦ elim (Result-cases (link_by_name i.name s)) [
      | inr (e, q) ↦ rw (t, q) (Shrinks-refl s)
      | inl (l, q) ↦ elim (Result-cases (reset_link nl l s).0) [
        | inr (e, r) ↦ rw (t, q, r) (reset_link-Shrinks l s)
        | inl (u, r) ↦
            rw (t, q, r)
              (Shrinks-trans (reset_link-Shrinks l s) (loop-Shrinks is (reset_link nl l s).1))
      ]
    ]
  ]

  pair_of : (r : Result (Unit {0}) × (State × Unit {0})) → r.0 ≡ ok tt → r ≡ (ok tt, (r.1.0, tt))
  pair_of r h = ground arith

  loop-IsReset :
      (is : List Interface) (s : State) {final : State}
      → for_each_loop nl callback is (s, tt) ≡ (ok tt, (final, tt))
      → All (λ l. IsReset l final) (visits is s)
  unfolding for_each_loop visits
  loop-IsReset [] s h = tt
  loop-IsReset (i ∷ is) s {final} h = elim (Bool-cases (bit_and i.flags nl.flag_loopback == 0)) [
    | inr f ↦ rw f (loop-IsReset is s (rw f at h))
    | inl t ↦ elim (Result-cases (link_by_name i.name s)) [
      | inr (e, q) ↦ rw (t, q) tt
      | inl (l, q) ↦ elim (Result-cases (reset_link nl l s).0) [
        | inr (e, r) ↦ absurd (ground arith)
        | inl (u, r) ↦
            let next = (reset_link nl l s).1 in
            let rest : for_each_loop nl callback is (next, tt) ≡ (ok tt, (final, tt)) =
              rw (t, q, r) at h in
            let shrinks : Shrinks next final =
              subst (Shrinks next) (ap (λ x. x.1.0) rest) (loop-Shrinks is next) in
            rw (t, q)
              (IsReset-Shrinks l shrinks (reset_link-IsReset l s r), loop-IsReset is next rest)
      ]
    ]
  ]

  -- If `ResetInterfaces` succeeds, no link that the loop came to, which are those of all interfaces
  -- but the loopback ones, has an address or is up.
  pub reset_interfaces-IsReset :
      (s : State) (is : List Interface)
      → interfaces s ≡ ok is
      → (reset_interfaces nl s).0 ≡ ok tt
      → All (λ l. IsReset l (reset_interfaces nl s).1) (visits is s)
  unfolding reset_interfaces for_each_interface
  reset_interfaces-IsReset s is e h =
      let run = for_each_interface nl callback (s, tt) in
      let same : for_each_loop nl callback is (s, tt) ≡ run = rw e refl in
      loop-IsReset is s (same ∙ pair_of run h)
