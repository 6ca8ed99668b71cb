-- ===== src/Network/Testing/Answered.antt =====
-- What `TestInterfaces` (internal/network/network.go) has found out about the links that it returns.
use stprov.Prelude.{
  Error, ◌⊎◌, ◌≢◌, sym, ◌∙◌, append-nil, append_assoc, ==_iff, ◌++◌, err, ℕ, true, false, Option,
  List, [], ◌∷◌, map, Text, Bytes, codes, has_prefix, ◌==◌, ok, Result-cases, Bool-cases, inl, inr,
  ◌≡◌, refl, arith,
}
use stprov.Prelude.Bits.{bit_and}
use stprov.Prelude.Int.{ℤ}
use stprov.Net.{Net}
use stprov.Network.{LinkWithSpeed, sort_stable, links_by_descending_speed}
use mathlib.Core.List.{Perm}
use stprov.Network.Speed.{
  IsDescending, of_speed, sort_stable-IsDescending, sort_stable-perm, of_speed-sort_stable,
}
use stprov.Network.Netlink.{Netlink, Link, Interface}
use stprov.Network.Interfaces.{
  reset_interfaces, for_each_interface, for_each_loop, has_addrs, conf_link, test_gateway,
  new_pinger, run_pinger, variables,
}
use stprov.Network.Device.{wait_for_device_event, get_device_speed}
use stprov.Network.Testing.{Devices, ip_text, test_link, test_interfaces}

module _ (net : Net) (nl : Netlink) (gw : Option Bytes) (addr : nl.Addr) (wait : ℤ) where
  open nl use {State, link_by_name}

  -- Of three pings of an address, some are answered.
  abbrev pub Answers : Text → State → Type 0
  Answers address s =
      (pinger : nl.Pinger) × (nl.new_pinger address ≡ ok pinger)
      × ((received : ℕ) × ((nl.run_pinger (nl.set_privileged true pinger) 3 s).0 ≡ ok received)
          × ((received == 0) ≡ false))

  test_gateway-Answers :
      (address : Text) (s : State) → (test_gateway nl address s).0 ≡ ok tt → Answers address s
  unfolding test_gateway new_pinger run_pinger
  test_gateway-Answers address s h = elim (Result-cases (nl.new_pinger address)) [
    | inr (e, q) ↦ absurd (ground arith)
    | inl (pinger, q) ↦ elim (Result-cases (nl.run_pinger (nl.set_privileged true pinger) 3 s).0) [
      | inr (e, r) ↦ absurd (ground arith)
      | inl (received, r) ↦ elim (Bool-cases (received == 0)) [
        | inl z ↦ absurd (ground arith)
        | inr f ↦ (pinger, q, (received, r, f))
      ]
    ]
  ]

  Answers-test_gateway :
      (address : Text) (s : State) → Answers address s → (test_gateway nl address s).0 ≡ ok tt
  unfolding test_gateway new_pinger run_pinger
  Answers-test_gateway address s (pinger, q, (received, r, f)) = rw (q, r, f) refl

  -- The states in the test of a link: once it is configured and the wait is over, and once the
  -- gateway was pinged; and the state in which the next link is tested.
  abbrev waited : Link → State → State
  waited link s = (wait_for_device_event nl wait (conf_link nl link gw addr s).1).1

  abbrev pinged : Link → State → State
  pinged link s = (test_gateway nl (ip_text net gw) (waited link s)).1

  abbrev after : Link → State → State
  after link s = (reset_interfaces nl (pinged link s)).1

  abbrev device : Link → State → LinkWithSpeed Link
  device link s = record {
    link = link;
    bits_per_second = (get_device_speed nl link.name (pinged link s)).bits_per_second;
  }

  -- The interface is no loopback interface, and has that link.
  abbrev Visited : Interface → Link → State → Type 0
  Visited i link s = (bit_and i.flags nl.flag_loopback ≡ 0) × (link_by_name i.name s ≡ ok link)

  -- The link is no bond, and has no address.
  abbrev Free : Link → State → Type 0
  Free link s = (has_prefix link.name (codes "bond") ≡ false) × (has_addrs nl link s ≡ false)

  -- The test of the interfaces, from a state on, and the devices over which the gateway answered: all
  -- those that are free, until a link is gone or cannot be configured.
  pub data Tested : List Interface → State → List (LinkWithSpeed Link) → Type 0 where
    over : (s : State) → Tested [] s []
    gone :
        (i : Interface) (is : List Interface) (s : State) (e : Error)
        → bit_and i.flags nl.flag_loopback ≡ 0
        → link_by_name i.name s ≡ err e
        → Tested (i ∷ is) s []
    loopback :
        (i : Interface) (is : List Interface) (s : State) (ds : List (LinkWithSpeed Link))
        → bit_and i.flags nl.flag_loopback ≢ 0
        → Tested is s ds
        → Tested (i ∷ is) s ds
    in_use :
        (i : Interface) (is : List Interface) (s : State) (ds : List (LinkWithSpeed Link))
        (link : Link)
        → Visited i link s
        → ¬ Free link s
        → Tested is s ds
        → Tested (i ∷ is) s ds
    not_configured :
        (i : Interface) (is : List Interface) (s : State) (link : Link) (e : Error)
        → Visited i link s
        → Free link s
        → (conf_link nl link gw addr s).0 ≡ err e
        → Tested (i ∷ is) s []
    silent :
        (i : Interface) (is : List Interface) (s : State) (ds : List (LinkWithSpeed Link))
        (link : Link)
        → Visited i link s
        → Free link s
        → (conf_link nl link gw addr s).0 ≡ ok tt
        → ¬ Answers (ip_text net gw) (waited link s)
        → Tested is (after link s) ds
        → Tested (i ∷ is) s ds
    answered :
        (i : Interface) (is : List Interface) (s : State) (ds : List (LinkWithSpeed Link))
        (link : Link)
        → Visited i link s
        → Free link s
        → (conf_link nl link gw addr s).0 ≡ ok tt
        → Answers (ip_text net gw) (waited link s)
        → Tested is (after link s) ds
        → Tested (i ∷ is) s (device link s ∷ ds)

  -- What the loop has made of the devices so far.
  abbrev Found : List Interface → State → Devices net nl → Devices net nl → Type 0
  Found is s before result =
      (ds : List (LinkWithSpeed Link)) × Tested is s ds × (result ≡ before ++ ds)

  -- A link that is free: the rest of the loop is given.
  Free-Found :
      (i : Interface) (is : List Interface) (s : State) (before : Devices net nl) (link : Link)
      → Visited i link s
      → Free link s
      → ((ds : Devices net nl)
          → Found is
              (after link s)
              ds
              ((for_each_loop nl (test_link net nl gw addr wait) is (after link s, ds)).1.1))
      → Found
          (i ∷ is)
          s
          before
          ((for_each_loop nl (test_link net nl gw addr wait) (i ∷ is) (s, before)).1.1)
  unfolding for_each_loop test_link
  Free-Found i is s before link (up, named) (no_bond, no_addrs) rest =
      elim (Result-cases (conf_link nl link gw addr s).0) [
        | inr (e, q) ↦ (
          [],
          not_configured i is s link e (up, named) (no_bond, no_addrs) q,
          rw (up, named, no_bond, no_addrs, q) (sym (append-nil before)),
        )
        | inl (u, q) ↦ elim (Result-cases (test_gateway nl (ip_text net gw) (waited link s)).0) [
          | inr (e, r) ↦
              let (ds, tested, same) = rest before in
              let none_answers : ¬ Answers (ip_text net gw) (waited link s) = λ a.
                let b = Answers-test_gateway (ip_text net gw) (waited link s) a in
                absurd (ground arith) in
              (
                ds,
                silent i is s ds link (up, named) (no_bond, no_addrs) q none_answers tested,
                rw (up, named, no_bond, no_addrs, q, r) same,
              )
          | inl (v, r) ↦
              let d = device link s in
              let (ds, tested, same) = rest (before ++ d ∷ []) in
              (
                d ∷ ds,
                answered i is s ds link (up, named) (no_bond, no_addrs) q
                    (test_gateway-Answers (ip_text net gw) (waited link s) r) tested,
                rw (up, named, no_bond, no_addrs, q, r) (same ∙ append_assoc before (d ∷ []) ds),
              )
        ]
      ]

  loop-Found :
      (is : List Interface) (s : State) (before : Devices net nl)
      → Found is s before ((for_each_loop nl (test_link net nl gw addr wait) is (s, before)).1.1)
  unfolding for_each_loop test_link
  loop-Found [] s before = ([], over s, sym (append-nil before))
  loop-Found (i ∷ is) s before = elim (Bool-cases (bit_and i.flags nl.flag_loopback == 0)) [
    | inr f ↦
        let (ds, tested, same) = loop-Found is s before in
        (ds, loopback i is s ds (ground arith) tested, rw f same)
    | inl t ↦
        let up = (==_iff (bit_and i.flags nl.flag_loopback) 0).0 t in
        elim (Result-cases (link_by_name i.name s)) [
          | inr (e, q) ↦ ([], gone i is s e up q, rw (t, q) (sym (append-nil before)))
          | inl (link, q) ↦
              let (ds, tested, same) = loop-Found is s before in
              elim (Bool-cases (has_prefix link.name (codes "bond"))) [
                | inl b ↦ (
                  ds,
                  in_use i is s ds link (up, q) (λ free. absurd (ground (arith, free.0))) tested,
                  rw (t, q, b) same,
                )
                | inr no_bond ↦ elim (Bool-cases (has_addrs nl link s)) [
                  | inl b ↦ (
                    ds,
                    in_use i is s ds link (up, q) (λ free. absurd (ground (arith, free.1))) tested,
                    rw (t, q, no_bond, b) same,
                  )
                  | inr no_addrs ↦
                      Free-Found i is s before link (up, q) (no_bond, no_addrs)
                        (λ ds'. loop-Found is (after link s) ds')
                ]
              ]
        ]
  ]

  abbrev pub tested : State → Devices net nl
  tested s = (variables nl (for_each_interface nl (test_link net nl gw addr wait)) [] s).0

  -- The interfaces were tested, or could not be listed.
  abbrev pub AllTested : State → List (LinkWithSpeed Link) → Type 0
  AllTested s ds =
      ((is : List Interface) × (nl.interfaces s ≡ ok is) × Tested is s ds)
      ⊎ ((ds ≡ []) × (e : Error) × (nl.interfaces s ≡ err e))

  tested-AllTested : (s : State) → AllTested s (tested s)
  unfolding for_each_interface
  tested-AllTested s = elim (Result-cases (nl.interfaces s)) [
    | inr (e, q) ↦ inr (rw q refl, e, q)
    | inl (is, q) ↦
        let (ds, all, same) = loop-Found is s [] in
        let run : tested s ≡ ds = rw q same in inl (is, q, rw run all)
  ]

module _ (net : Net) (nl : Netlink) where
  open nl use {State}

  -- The links are those of all devices over which the gateway answered in the test of the interfaces,
  -- the faster ones first and those of one speed in the order of the test.
  pub record IsFound (gw addr : Text) (wait : ℤ) (s : State) (links : List Link) : Type 0 where
    pub host : nl.Addr
    pub is_host : nl.parse_addr addr ≡ ok host
    pub all : List (LinkWithSpeed Link)
    pub is_all : AllTested net nl (net.parse_ip gw) host wait s all
    pub devices : List (LinkWithSpeed Link)
    pub is_links : links ≡ map (λ (d : LinkWithSpeed Link). d.link) devices
    pub same_devices : Perm devices all
    pub descending : IsDescending devices
    pub stable : (v : ℤ) → of_speed v devices ≡ of_speed v all

  -- The links that `TestInterfaces` returns are those over which the gateway answered.
  pub test_interfaces-IsFound :
      (gw addr : Text) (wait : ℤ) (s : State) (links : List Link)
      → (test_interfaces net nl gw addr wait s).0 ≡ ok links
      → IsFound gw addr wait s links
  unfolding test_interfaces for_each_interface links_by_descending_speed
  test_interfaces-IsFound gw addr wait s links h = elim (Result-cases (nl.parse_addr addr)) [
    | inr (e, q) ↦ absurd (ground arith)
    | inl (host, q) ↦
        let ds = tested net nl (net.parse_ip gw) host wait s in
        record {
          host = host;
          is_host = q;
          all = ds;
          is_all = tested-AllTested net nl (net.parse_ip gw) host wait s;
          devices = sort_stable ds;
          is_links = ground arith;
          same_devices = sort_stable-perm ds;
          descending = sort_stable-IsDescending ds;
          stable = λ v. of_speed-sort_stable v ds;
        }
  ]
