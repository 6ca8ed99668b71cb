-- ===== src/Remote/Dhcp.antt =====
-- subcmd/remote/dhcp/dhcp.go: the configuration by DHCP.
pub mod Complete
use stprov.Prelude.{none, some, List, [], ◌∷◌, ◌++◌, Text, Bytes, codes, msg, ok}
use stprov.Prelude.Int.{ℤ}
use stprov.Prelude.Errors
use stprov.Prelude.Exec.{Exec, pure, lift, reads, context, ◌>>=◌, ◌>>◌}
use stprov.Net.{Net}
use stprov.Network.Netlink.{Netlink}
use stprov.Network.Interfaces.{reset_interfaces, get_interface_name}
use stprov.Remote.Config.{HostConfig, Stboot}
use stprov.Remote.Static.{no_args, with_default}

module _ (net : Net) (nl : Netlink) (stboot : Stboot nl) where
  open nl use {State, Addr, parse_mac}

  abbrev pub dynamic_of : List Bytes → Text → Bytes → HostConfig Addr
  dynamic_of dns_servers ifname mac = record {
    host_ip = none;
    default_gateway = none;
    ip_addr_mode = stboot.ip_dynamic;
    dns_server = dns_servers;
    network_interfaces = record { interface_name = ifname; mac_address = some mac } ∷ [];
    bonding_mode = none;
    bond_name = none;
    os_pkg_pointer = none;
    description = none;
  }

  -- The choice of the interface is the one of the static configuration.
  unfoldable pub config : List Text → List Bytes → Text → ℤ → Exec State (HostConfig Addr)
  config args dns_servers interface interface_wait = do
    lift (no_args args)
    mac_text ← with_default net nl stboot interface_wait interface
    mac ←
        lift
          (Errors.instead (msg (codes "malformed mac address: " ++ mac_text)) (parse_mac mac_text))
    context (codes "failed to reset network interfaces") (reset_interfaces nl)
    ifname ← reads λ s. ok (get_interface_name nl mac s)
    let cfg = dynamic_of dns_servers ifname mac
    context (codes "setup network") (stboot.setup_network_interface cfg)
    pure cfg
