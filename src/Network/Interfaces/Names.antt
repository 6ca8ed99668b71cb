-- ===== src/Network/Interfaces/Names.antt =====
-- `GetInterfaceName` and `GetHardwareAddr` (internal/network/network.go).
use stprov.Prelude.{
  Bool, true, none, some, List, [], ◌∷◌, Text, Bytes, text_eq, text_eq_refl, text_eq_sound, In,
  if◌then◌else◌, ok, Bool-cases, ◌⊎◌, inl, inr, ◌≡◌, refl, sym, arith,
}
use mathlib.Core.Path.{ap, ◌∙◌}
use stprov.Network.Netlink.{Netlink, Link, Interface}
use stprov.Network.Interfaces.Fold.{fold, links_of, loop-fold}
use stprov.Network.Interfaces.{for_each_interface, get_interface_name, get_hardware_addr}

module _ (nl : Netlink) where
  open nl use {State, interfaces, link_by_name, mac_string}

  -- The value of the last link that passes a test.
  abbrev last_of : {A : Type 0} → (Link → Bool) → (Link → A) → A → List Link → A
  last_of test value a ls = fold (λ l b. if test l then value l else b) a ls

  last_of-reached :
      {A : Type 0} (test : Link → Bool) (value : Link → A) (ls : List Link) {a v : A}
      → last_of test value a ls ≡ v
      → (a ≡ v) ⊎ ((l : Link) × In l ls × (test l ≡ true) × (value l ≡ v))
  unfolding fold
  last_of-reached test value [] h = inl h
  last_of-reached test value (l ∷ ls) h = elim (last_of-reached test value ls h) [
    | inr (l', m, t, e) ↦ inr (l', inr m, t, e)
    | inl e ↦ elim (Bool-cases (test l)) [
      | inl t ↦ inr (l, inl refl, t, rw t at e)
      | inr f ↦ inl (rw f at e)
    ]
  ]

  last_of_only :
      {A : Type 0} (test : Link → Bool) (value : Link → A) (ls : List Link) {a v : A}
      → ((l : Link) → In l ls → test l ≡ true → value l ≡ v)
      → (a ≡ v) ⊎ ((l : Link) × In l ls × (test l ≡ true))
      → last_of test value a ls ≡ v
  unfolding fold
  last_of_only test value [] only (inl e) = e
  last_of_only test value [] only (inr (l, m, t)) = absurd m
  last_of_only test value (l ∷ ls) {a} {v} only reached =
      last_of_only test value ls (λ l' m t. only l' (inr m) t)
        (elim (Bool-cases (test l)) [
          | inl t ↦ inl (rw t (only l (inl refl) t))
          | inr f ↦ elim reached [
            | inl e ↦ inl (rw f e)
            | inr (l', inr m, t) ↦ inr (l', m, t)
            | inr (l', inl e, t) ↦ absurd (ground (arith, ap test e))
          ]
        ])

  get_hardware_addr-last_of :
      (name : Text) (s : State) (is : List Interface)
      → interfaces s ≡ ok is
      → get_hardware_addr nl name s
        ≡ last_of (λ l. text_eq l.name name) (λ l. some l.hardware_addr) none (links_of nl is s)
  unfolding get_hardware_addr for_each_interface
  get_hardware_addr-last_of name s is e = rw e (
      ap (λ t. t.1)
        (loop-fold nl (λ l b. if text_eq l.name name then some l.hardware_addr else b) is s none))

  get_interface_name-last_of :
      (mac : Bytes) (s : State) (is : List Interface)
      → interfaces s ≡ ok is
      → get_interface_name nl mac s
        ≡ last_of
            (λ l. text_eq (mac_string l.hardware_addr) (mac_string mac))
            (λ l. l.name)
            []
            (links_of nl is s)
  unfolding get_interface_name for_each_interface
  get_interface_name-last_of mac s is e = rw e (
      ap (λ t. t.1)
        (loop-fold nl
          (λ l b. if text_eq (mac_string l.hardware_addr) (mac_string mac) then l.name else b) is s
          []))

  -- The address that `GetHardwareAddr` gives for a name leads `GetInterfaceName` back to the name, if
  -- no interface of another name, but a loopback one, has that address.
  pub get_interface_name-get_hardware_addr :
      (name : Text) (s : State) (is : List Interface) {mac : Bytes}
      → interfaces s ≡ ok is
      → get_hardware_addr nl name s ≡ some mac
      → ((l : Link)
          → In l (links_of nl is s)
          → mac_string l.hardware_addr ≡ mac_string mac
          → l.name ≡ name)
      → get_interface_name nl mac s ≡ name
  get_interface_name-get_hardware_addr name s is {mac} e h only =
      let reached =
        last_of-reached (λ l. text_eq l.name name) (λ l. some l.hardware_addr) (links_of nl is s)
          (sym (get_hardware_addr-last_of name s is e) ∙ h) in
      get_interface_name-last_of mac s is e
      ∙ last_of_only _ (λ l. l.name) (links_of nl is s)
          (λ l m t. only l m (text_eq_sound (mac_string l.hardware_addr) (mac_string mac) t))
          (elim reached [
            | inl q ↦ absurd (ground arith)
            | inr (l, m, t, q) ↦
                let same : l.hardware_addr ≡ mac = ground arith in
                inr (l, m, rw same (text_eq_refl (mac_string mac)))
          ])
