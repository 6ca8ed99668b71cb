-- ===== src/Remote/Static/Complete.antt =====
-- What `stprov remote static` has checked and done when it has a configuration
-- (subcmd/remote/static/static.go).
use stprov.Prelude.{
  false, none, some, List, [], ◌∷◌, map, Text, Bytes, ◌==◌, ok, Result-cases, Option-cases,
  Bool-cases, ◌⊎◌, inl, inr, ◌≡◌, refl, arith,
}
use stprov.Net.{Net}
use stprov.Network.Netlink.{Netlink}
use stprov.Network.Interfaces.{reset_interfaces, get_interface_name, get_hardware_addr}
use stprov.Options.{validate_host_and_gateway}
use stprov.Remote.Config.{HostConfig, NetworkInterface, Stboot}
use stprov.Remote.Static.{
  StaticOptions, bonding_name, config, configured, static_of, with_bonding, interface_of,
}

module _ (net : Net) (nl : Netlink) (stboot : Stboot nl) where
  open nl use {State, Addr}

  abbrev pub member : State → Text → NetworkInterface
  member s name = record { interface_name = name; mac_address = get_hardware_addr nl name s }

  -- One interface and no bond, or a bond of the given interfaces in a mode that is known.
  abbrev pub IsBonding : Text → List Text → Bytes → State → HostConfig Addr → Type 0
  IsBonding mode bonded mac s cfg =
      ((bonded ≡ [])
        × (cfg.bond_name ≡ none)
        × (cfg.bonding_mode ≡ none)
        × (cfg.network_interfaces
            ≡ record { interface_name = get_interface_name nl mac s; mac_address = some mac } ∷ []))
      ⊎ ((cfg.bond_name ≡ some bonding_name)
          × (cfg.bonding_mode ≡ some (stboot.string_to_bonding_mode mode))
          × ((stboot.string_to_bonding_mode mode == stboot.bonding_unknown) ≡ false)
          × (cfg.network_interfaces ≡ map (member s) bonded))

  -- What is done for a configuration, from a state in which the interface is chosen: all interfaces
  -- are reset, and the interface is set up with the configuration.
  pub record IsSetUp (o : StaticOptions) (bonded : List Text) (mac : Bytes) (host_ip : Addr)
      (gateway : Bytes) (s s' : State) (cfg : HostConfig Addr) : Type 0 where
    pub host_ip_set : cfg.host_ip ≡ some host_ip
    pub gateway_set : cfg.default_gateway ≡ some gateway
    pub dns_servers_set : cfg.dns_server ≡ o.dns_servers
    pub is_static : cfg.ip_addr_mode ≡ stboot.ip_static
    pub is_reset : (reset_interfaces nl s).0 ≡ ok tt
    pub bonding : IsBonding o.bonding_mode bonded mac (reset_interfaces nl s).1 cfg
    pub is_set_up : (stboot.setup_network_interface cfg (reset_interfaces nl s).1).0 ≡ ok tt
    pub left : s' ≡ (stboot.setup_network_interface cfg (reset_interfaces nl s).1).1

  pub record IsComplete (o : StaticOptions) (s s' : State) (cfg : HostConfig Addr) : Type 0 where
    pub no_trailing : o.args ≡ []
    pub gateway : Text
    pub is_gateway :
        validate_host_and_gateway net o.host_ip o.gateway o.force o.try_last_gateway ≡ ok gateway
    pub gateway_ip : Bytes
    pub is_gateway_ip : net.parse_ip gateway ≡ some gateway_ip
    pub host_ip : Addr
    pub is_host_ip : nl.parse_addr o.host_ip ≡ ok host_ip
    pub choice : Text × List Text
    pub is_choice : (interface_of net nl stboot o gateway s).0 ≡ ok choice
    pub mac : Bytes
    pub is_mac : nl.parse_mac choice.0 ≡ ok mac
    pub set_up :
        IsSetUp o choice.1 mac host_ip gateway_ip (interface_of net nl stboot o gateway s).1 s' cfg

  abbrev Same : HostConfig Addr → HostConfig Addr → Type 0
  Same a b =
      (a.host_ip ≡ b.host_ip)
      × (a.default_gateway ≡ b.default_gateway)
      × (a.dns_server ≡ b.dns_server)
      × (a.ip_addr_mode ≡ b.ip_addr_mode)

  with_bonding-eq_ok :
      (mode : Text) (bonded : List Text) (dns : List Bytes) (mac : Bytes) (a : Addr) (gw : Bytes)
      (s : State) {cfg : HostConfig Addr}
      → let base = static_of net nl stboot dns (get_interface_name nl mac s) mac a gw in
        (with_bonding net nl stboot mode bonded base s ≡ ok cfg)
        → Same cfg base × IsBonding mode bonded mac s cfg
  unfolding with_bonding
  with_bonding-eq_ok mode [] dns mac a gw s h = ground arith
  with_bonding-eq_ok mode (name ∷ names) dns mac a gw s h =
      elim (Bool-cases (stboot.string_to_bonding_mode mode == stboot.bonding_unknown)) [
        | inl t ↦ absurd (ground arith)
        | inr f ↦ ground arith
      ]

  configured-IsSetUp :
      (o : StaticOptions) (bonded : List Text) (mac : Bytes) (a : Addr) (gw : Bytes) (s : State)
      {cfg : HostConfig Addr}
      → let run = configured net nl stboot o bonded mac a gw s in
        (run.0 ≡ ok cfg) → IsSetUp o bonded mac a gw s run.1 cfg
  unfolding configured
  configured-IsSetUp o bonded mac a gw s {cfg} h =
      let s1 = (reset_interfaces nl s).1 in
      let base = static_of net nl stboot o.dns_servers (get_interface_name nl mac s1) mac a gw in
      elim (Result-cases (reset_interfaces nl s).0) [
        | inr (e, q) ↦ absurd (ground arith)
        | inl (u, q) ↦
            elim (Result-cases (with_bonding net nl stboot o.bonding_mode bonded base s1)) [
              | inr (e, r) ↦ absurd (ground arith)
              | inl (made, r) ↦ elim (Result-cases (stboot.setup_network_interface made s1).0) [
                | inr (e, v) ↦ absurd (ground arith)
                | inl (u', v) ↦
                    let same : made ≡ cfg = ground arith in
                    let ((host, gate, dns, mode), bonding) =
                      with_bonding-eq_ok o.bonding_mode bonded o.dns_servers mac a gw s1
                        (rw same at r) in
                    record {
                      host_ip_set = host;
                      gateway_set = gate;
                      dns_servers_set = dns;
                      is_static = mode;
                      is_reset = q;
                      bonding = bonding;
                      is_set_up = rw (← same) v;
                      left = rw (q, r, v, ← same) refl;
                    }
              ]
            ]
      ]

  -- A configuration is made only of a command line that is complete: no trailing argument, a gateway
  -- that was validated with the host's address, both of which parse, and a known mode for a bond. It
  -- is of the interface that was chosen, by the name that it has after the reset of all interfaces, or
  -- of the interfaces that are bonded, and it was set up without an error.
  pub config-IsComplete :
      (o : StaticOptions) (s : State) (cfg : HostConfig Addr)
      → let run = config net nl stboot o s in (run.0 ≡ ok cfg) → IsComplete o s run.1 cfg
  unfolding config
  config-IsComplete o s cfg h =
      elim (Result-cases
        (validate_host_and_gateway net o.host_ip o.gateway o.force o.try_last_gateway)) [
          | inr (e, q) ↦ absurd (ground arith)
          | inl (gateway, q) ↦
              let r = interface_of net nl stboot o gateway s in
              elim (Result-cases r.0) [
                | inr (e, q1) ↦ absurd (ground arith)
                | inl (found, q1) ↦ elim (Result-cases (nl.parse_mac found.0)) [
                  | inr (e, q2) ↦ absurd (ground arith)
                  | inl (mac, q2) ↦ elim (Result-cases (nl.parse_addr o.host_ip)) [
                    | inr (e, q3) ↦ absurd (ground arith)
                    | inl (a, q3) ↦ elim (Option-cases (net.parse_ip gateway)) [
                      | inl q4 ↦ absurd (ground arith)
                      | inr (gw, q4) ↦
                          let no_trailing : o.args ≡ [] = ground arith in
                          let run : config net nl stboot o s
                              ≡ configured net nl stboot o found.1 mac a gw r.1 =
                            rw (no_trailing, q, q1, q2, q3, q4) refl in
                          rw run (record {
                            no_trailing = no_trailing;
                            gateway = gateway;
                            is_gateway = q;
                            gateway_ip = gw;
                            is_gateway_ip = q4;
                            host_ip = a;
                            is_host_ip = q3;
                            choice = found;
                            is_choice = q1;
                            mac = mac;
                            is_mac = q2;
                            set_up = configured-IsSetUp o found.1 mac a gw r.1 (rw run at h);
                          })
                    ]
                  ]
                ]
              ]
        ]
