-- ===== src/Remote/Dhcp/Complete.antt =====
-- What `stprov remote dhcp` has done when it has a configuration (subcmd/remote/dhcp/dhcp.go).
use stprov.Prelude.{
  none, some, List, [], ◌∷◌, Text, Bytes, ok, Result-cases, inl, inr, ◌≡◌, ◌≢◌, refl, arith,
}
use mathlib.Core.Path.{subst}
use stprov.Prelude.Int.{ℤ}
use stprov.Net.{Net}
use stprov.Network.Netlink.{Netlink}
use stprov.Network.Interfaces.{reset_interfaces, get_interface_name}
use stprov.Options.Interfaces.{default_interfaces}
use stprov.Remote.Config.{HostConfig, Stboot}
use stprov.Remote.Static.{with_default}
use stprov.Remote.Dhcp.{config, dynamic_of}

module _ (net : Net) (nl : Netlink) (stboot : Stboot nl) where
  open nl use {State, Addr}

  -- The interface of the command line, or the first of the default ones.
  pub data IsChosen (wait : ℤ) (s : State) : Text → Text → State → Type 0 where
    given : (interface : Text) → interface ≢ [] → IsChosen wait s interface interface s
    default :
        (mac : Bytes) (macs : List Bytes)
        → (default_interfaces nl wait s).0 ≡ ok (mac ∷ macs)
        → IsChosen wait s [] (nl.mac_string mac) (default_interfaces nl wait s).1

  pub with_default-IsChosen :
      (wait : ℤ) (interface : Text) (s : State) {mac_text : Text}
      → (with_default net nl stboot wait interface s).0 ≡ ok mac_text
      → IsChosen wait s interface mac_text (with_default net nl stboot wait interface s).1
  unfolding with_default
  with_default-IsChosen wait [] s h = elim (Result-cases (default_interfaces nl wait s).0) [
    | inr (e, q) ↦ absurd (ground arith)
    | inl ([], q) ↦ absurd (ground arith)
    | inl (mac ∷ macs, q) ↦
        subst (λ t. IsChosen wait s [] t (default_interfaces nl wait s).1) (ground arith)
          (default mac macs q)
  ]
  with_default-IsChosen wait (c ∷ interface) s h =
      subst (λ t. IsChosen wait s (c ∷ interface) t s) (ground arith)
        (given (c ∷ interface) λ e. cc)

  -- The configuration asks for an address by DHCP on the one interface that was chosen; all others
  -- were reset before, and the interface was set up with the configuration.
  pub record IsDynamic (args : List Text) (dns_servers : List Bytes) (interface : Text) (wait : ℤ)
      (s s' : State) (cfg : HostConfig Addr) : Type 0 where
    pub no_trailing : args ≡ []
    pub mac_text : Text
    pub chosen : State
    pub is_chosen : IsChosen wait s interface mac_text chosen
    pub mac : Bytes
    pub is_mac : nl.parse_mac mac_text ≡ ok mac
    pub is_reset : (reset_interfaces nl chosen).0 ≡ ok tt
    pub by_dhcp : cfg.ip_addr_mode ≡ stboot.ip_dynamic
    pub no_host_ip : cfg.host_ip ≡ none
    pub no_gateway : cfg.default_gateway ≡ none
    pub dns_servers_set : cfg.dns_server ≡ dns_servers
    pub one_interface :
        cfg.network_interfaces
        ≡ record {
          interface_name = get_interface_name nl mac (reset_interfaces nl chosen).1;
          mac_address = some mac;
        }
          ∷ []
    pub no_bond : (cfg.bonding_mode ≡ none) × (cfg.bond_name ≡ none)
    pub is_set_up : (stboot.setup_network_interface cfg (reset_interfaces nl chosen).1).0 ≡ ok tt
    pub left : s' ≡ (stboot.setup_network_interface cfg (reset_interfaces nl chosen).1).1

  pub config-IsDynamic :
      (args : List Text) (dns_servers : List Bytes) (interface : Text) (wait : ℤ) (s : State)
      (cfg : HostConfig Addr)
      → let run = config net nl stboot args dns_servers interface wait s in
        (run.0 ≡ ok cfg) → IsDynamic args dns_servers interface wait s run.1 cfg
  unfolding config
  config-IsDynamic (arg ∷ args) dns_servers interface wait s cfg h = absurd (ground arith)
  config-IsDynamic [] dns_servers interface wait s cfg h =
      let chosen = with_default net nl stboot wait interface s in
      let reset = reset_interfaces nl chosen.1 in
      elim (Result-cases chosen.0) [
        | inr (e, q) ↦ absurd (ground arith)
        | inl (mac_text, q) ↦ elim (Result-cases (nl.parse_mac mac_text)) [
          | inr (e, q1) ↦ absurd (ground arith)
          | inl (mac, q1) ↦ elim (Result-cases reset.0) [
            | inr (e, q2) ↦ absurd (ground arith)
            | inl (u, q2) ↦
                let made =
                  dynamic_of net nl stboot dns_servers (get_interface_name nl mac reset.1) mac in
                elim (Result-cases (stboot.setup_network_interface made reset.1).0) [
                  | inr (e, q3) ↦ absurd (ground arith)
                  | inl (v, q3) ↦
                      let same : made ≡ cfg = ground arith in
                      record {
                        no_trailing = refl;
                        mac_text = mac_text;
                        chosen = chosen.1;
                        is_chosen = with_default-IsChosen wait interface s q;
                        mac = mac;
                        is_mac = q1;
                        is_reset = q2;
                        by_dhcp = rw (← same) refl;
                        no_host_ip = rw (← same) refl;
                        no_gateway = rw (← same) refl;
                        dns_servers_set = rw (← same) refl;
                        one_interface = rw (← same) refl;
                        no_bond = (rw (← same) refl, rw (← same) refl);
                        is_set_up = rw (← same) q3;
                        left = rw (q, q1, q2, q3, ← same) refl;
                      }
                ]
          ]
        ]
      ]
