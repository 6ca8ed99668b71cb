-- ===== src/Examples/Lab.antt =====
-- A machine with a loopback interface and a network card, and examples of what is done to them.
use stprov.Prelude.{
  Bool, true, false, none, List, [], ◌∷◌, Text, Bytes, codes, text_eq, text_eq_refl, if◌then◌else◌,
  msg, Result, ok, err, All, In, Bool-cases, inl, inr, ◌≡◌, refl, arith,
}
use stprov.Prelude.Int.{pos}
use stprov.Network.Netlink.{Netlink, Interface, Link}
use stprov.Network.Interfaces.{reset_interfaces, get_interface_name}
use stprov.Network.Interfaces.Reset.{IsKernel, IsReset, visits, reset_interfaces-IsReset}
use stprov.Network.Interfaces.Names.{get_interface_name-get_hardware_addr}
use stprov.Network.Interfaces.Fold.{links_of}
use stprov.Options.Interfaces.{default_interfaces}
use stprov.Options.Default.{Selected, Chosen, raised, default_interfaces-Selected}

-- The addresses of the card, and whether it is up.
abbrev pub Card : Type 0
Card = List Text × Bool

abbrev without : Text → List Text → List Text
without a [] = []
without a (b ∷ bs) = let rest = without a bs in if text_eq a b then rest else b ∷ rest

abbrev card_named : Text → Card → Result Link
card_named name s =
    if text_eq name (codes "eth0")
    then ok (record {
      name = codes "eth0";
      hardware_addr = codes "52:54:00:12:34:56";
      index = 2;
      flags = if s.1 then 3 else 2;
      raw_flags = if s.1 then 67 else 2;
    })
    else err (msg (codes "Link not found"))

abbrev pub interfaces : List Interface
interfaces =
    record { name = codes "lo"; flags = 5 } ∷ record { name = codes "eth0"; flags = 3 } ∷ []

abbrev pub netlink : Netlink
netlink = record {
  State = Card;
  Addr = Text;
  Pinger = Text;
  interfaces = λ s. ok interfaces;
  link_by_name = card_named;
  addr_list = λ link s. (s.0, none);
  addr_add = λ link a s. (ok tt, (a ∷ s.0, s.1));
  addr_del = λ link a s. (ok tt, (without a s.0, s.1));
  link_set_up = λ link s. (ok tt, (s.0, true));
  link_set_down = λ link s. (ok tt, (s.0, false));
  route_add = λ route s. (ok tt, s);
  link_subscribe = λ s. (ok tt, s);
  next_update = λ wait s. (none, s);
  new_pinger = ok;
  set_privileged = λ on pinger. pinger;
  run_pinger = λ pinger n s. (ok n, s);
  read_file = λ name s. err (msg (codes "no such file"));
  parse_addr = ok;
  parse_mac = ok;
  mac_string = λ mac. mac;
  parse_int = λ s. ok (pos 1000);
  trim_space = λ s. s;
  quoted = λ s. s;
  flag_up = 1;
  flag_loopback = 4;
  oper_up = 6;
  scope_universe = 0;
}

without-gone : (a : Text) (bs : List Text) → ¬ In a (without a bs)
without-gone a [] = λ m. m
without-gone a (b ∷ bs) = elim (Bool-cases (text_eq a b)) [
  | inl t ↦ rw t (without-gone a bs)
  | inr f ↦ rw f (λ m. elim m [
    | inl same ↦ absurd (ground (arith, text_eq_refl a))
    | inr later ↦ without-gone a bs later
  ])
]

without-listed : (a b : Text) (bs : List Text) → In b (without a bs) → In b bs
without-listed a b [] m = m
without-listed a b (c ∷ bs) m = elim (Bool-cases (text_eq a c)) [
  | inl t ↦ inr (without-listed a b bs (rw t at m))
  | inr f ↦
      let kept : In b (c ∷ without a bs) = rw f at m in
      elim kept [ inl same ↦ inl same | inr later ↦ inr (without-listed a b bs later) ]
]

abbrev pub is_up : Link → Card → Bool
is_up link s = s.1

netlink-IsKernel : IsKernel netlink is_up
netlink-IsKernel = record {
  del-gone = λ l a s h. without-gone a s.0;
  del-listed = λ l l' a b s. without-listed a b s.0;
  del-up = λ l l' a s h. h;
  down-down = λ l s h. refl;
  down-listed = λ l l' b s m. m;
  down-up = λ l l' s h. refl;
}

abbrev pub card : Card
card = (codes "10.0.0.9/24" ∷ codes "fe80::1/64" ∷ [], true)

reset_interfaces-IsReset_example :
    All
      (λ l. IsReset netlink is_up netlink-IsKernel l (reset_interfaces netlink card).1)
      (visits netlink is_up netlink-IsKernel interfaces card)
unfolding reset_interfaces stprov.Network.Interfaces.for_each_interface
reset_interfaces-IsReset_example =
    reset_interfaces-IsReset netlink is_up netlink-IsKernel card interfaces refl refl

get_interface_name-get_hardware_addr_example :
    get_interface_name netlink (codes "52:54:00:12:34:56") card ≡ codes "eth0"
unfolding links_of stprov.Network.Interfaces.get_hardware_addr
get_interface_name-get_hardware_addr_example =
    get_interface_name-get_hardware_addr netlink (codes "eth0") card interfaces refl refl
      λ l m h. elim m [ inl same ↦ rw same refl | inr later ↦ absurd later ]

default_interfaces-Selected_example :
    (macs : List Bytes) × Selected netlink
      (links_of netlink interfaces (raised netlink (pos 4000000000) card))
      macs
    × Chosen netlink macs (default_interfaces netlink (pos 4000000000) card).0
    × ((default_interfaces netlink (pos 4000000000) card).1 ≡ raised netlink (pos 4000000000) card)
default_interfaces-Selected_example =
    default_interfaces-Selected netlink (pos 4000000000) card interfaces refl
