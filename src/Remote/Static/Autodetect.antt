-- ===== src/Remote/Static/Autodetect.antt =====
-- Which interface `stprov remote static` chooses when it is to detect one
-- (subcmd/remote/static/static.go).
use stprov.Prelude.{
  true, ◌||◌, List, [], ◌∷◌, map, Text, Bytes, is_empty, if◌then◌else◌, Result, ok, Result-cases,
  Bool-cases, ◌⊎◌, inl, inr, ◌≡◌, refl, arith,
}
use stprov.Net.{Net}
use stprov.Network.Netlink.{Netlink, Link}
use stprov.Network.Testing.{test_interfaces}
use stprov.Network.Testing.Answered.{IsFound, test_interfaces-IsFound}
use stprov.Options.Interfaces.{default_interfaces}
use stprov.Remote.Config.{HostConfig, Stboot}
use stprov.Remote.Static.{
  StaticOptions, first_bonded, autodetected, with_default, interface_of, config,
}
use stprov.Remote.Static.Complete.{IsComplete, config-IsComplete}

is_empty_sound : (t : Text) → is_empty t ≡ true → t ≡ []
is_empty_sound [] h = refl
is_empty_sound (c ∷ t) h = absurd (ground arith)

module _ (net : Net) (nl : Netlink) (stboot : Stboot nl) (o : StaticOptions) (gateway : Text) where
  open nl use {State, mac_string}

  abbrev detect : State → Result (List Link) × State
  detect = test_interfaces net nl gateway o.host_ip o.interface_wait

  -- The choice is the fastest of the links over which the gateway answered; all of them are to be
  -- bonded if a bond is asked for.
  pub record IsFastest (s : State) (choice : Text × List Text) : Type 0 where
    pub link : Link
    pub links : List Link
    pub found : IsFound net nl gateway o.host_ip o.interface_wait s (link ∷ links)
    pub is_mac : choice.0 ≡ mac_string link.hardware_addr
    pub bonded :
        choice.1 ≡ (if o.bonding_auto then map (λ (l : Link). l.name) (link ∷ links) else [])

  -- The choice is the first of the default interfaces, and no link with an address was detected.
  pub record IsDefault (s : State) (choice : Text × List Text) : Type 0 where
    pub mac : Bytes
    pub macs : List Bytes
    pub is_first : (default_interfaces nl o.interface_wait (detect s).1).0 ≡ ok (mac ∷ macs)
    pub is_mac : choice.0 ≡ mac_string mac
    pub found :
        (links : List Link)
        → (detect s).0 ≡ ok links
        → IsFound net nl gateway o.host_ip o.interface_wait s links
    pub not_detected :
        (link : Link) (links : List Link)
        → (detect s).0 ≡ ok (link ∷ links)
        → mac_string link.hardware_addr ≡ []

  with_default-IsDefault :
      (s : State) {choice : Text × List Text}
      → ((link : Link) (links : List Link)
          → (detect s).0 ≡ ok (link ∷ links)
          → mac_string link.hardware_addr ≡ [])
      → (with_default net nl stboot o.interface_wait [] (detect s).1).0 ≡ ok choice.0
      → IsDefault s choice
  unfolding with_default
  with_default-IsDefault s {choice} none_found h =
      elim (Result-cases (default_interfaces nl o.interface_wait (detect s).1).0) [
        | inr (e, q) ↦ absurd (ground arith)
        | inl ([], q) ↦ absurd (ground arith)
        | inl (mac ∷ macs, q) ↦ record {
          mac = mac;
          macs = macs;
          is_first = q;
          is_mac = ground arith;
          found = λ links q'.
              test_interfaces-IsFound net nl gateway o.host_ip o.interface_wait s links q';
          not_detected = none_found;
        }
      ]

  -- Autodetection chooses the fastest of the links over which the gateway answered, or else the first
  -- default interface.
  interface_of-IsFastest :
      (s : State) (choice : Text × List Text)
      → o.interface ≡ []
      → o.bonding_interfaces ≡ []
      → (o.autodetect || o.bonding_auto) ≡ true
      → (interface_of net nl stboot o gateway s).0 ≡ ok choice
      → IsFastest s choice ⊎ IsDefault s choice
  unfolding interface_of first_bonded autodetected with_default
  interface_of-IsFastest s choice no_interface no_bond auto h = elim (Result-cases (detect s).0) [
    | inr (e, q) ↦
        inr (with_default-IsDefault s (λ link links r. absurd (ground arith)) ground arith)
    | inl ([], q) ↦
        inr (with_default-IsDefault s (λ link links r. absurd (ground arith)) ground arith)
    | inl (link ∷ links, q) ↦ elim (Bool-cases (is_empty (mac_string link.hardware_addr))) [
      | inl t ↦ inr (
          with_default-IsDefault s
            (λ link' links' r.
              let same : link' ≡ link = ground arith in rw same (is_empty_sound _ t))
            ground arith)
      | inr f ↦ inl (record {
        link = link;
        links = links;
        found = test_interfaces-IsFound net nl gateway o.host_ip o.interface_wait s _ q;
        is_mac = ground arith;
        bonded = ground arith;
      })
    ]
  ]

module _ (net : Net) (nl : Netlink) (stboot : Stboot nl) where
  -- When a configuration is made without an interface or a bond on the command line but with
  -- autodetection, the address that was chosen is that of the fastest of the links over which the
  -- gateway answered, and if a bond is asked for all of them are chosen for it, the fastest first.
  -- Every link was tested but loopback ones, bonds and those with an address, up to the first
  -- interface that was gone or whose link could not be configured. Only if no link was found, or one
  -- without a hardware address in front, the address is that of the first default interface.
  pub config-IsDetected :
      (o : StaticOptions) (s : nl.State) (cfg : HostConfig nl.Addr)
      → o.interface ≡ []
      → o.bonding_interfaces ≡ []
      → (o.autodetect || o.bonding_auto) ≡ true
      → let run = config net nl stboot o s in
        (run.0 ≡ ok cfg)
        → (c : IsComplete net nl stboot o s run.1 cfg) × (IsFastest net nl stboot o c.gateway s
              c.choice
            ⊎ IsDefault net nl stboot o c.gateway s c.choice)
  config-IsDetected o s cfg no_interface no_bond auto h =
      let c = config-IsComplete net nl stboot o s cfg h in
      (
        c,
        interface_of-IsFastest net nl stboot o c.gateway s c.choice no_interface no_bond auto
            c.is_choice,
      )
