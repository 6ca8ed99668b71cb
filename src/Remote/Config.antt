-- ===== src/Remote/Config.antt =====
-- What the subcommands call of system-transparency.org/stboot/host and its package network: the
-- configuration as the fields that this code sets, and the functions on it.
use stprov.Prelude.{ℕ, Option, List, Text, Bytes}
use stprov.Prelude.Exec.{Exec}
use stprov.St.{Host}
use stprov.Network.Netlink.{Netlink}

-- host.NetworkInterface
pub record NetworkInterface : Type 0 where
  pub interface_name : Text
  pub mac_address : Option Bytes

-- host.Config; none is a field that is not set.
pub record HostConfig (Addr : Type 0) : Type 0 where
  pub host_ip : Option Addr
  pub default_gateway : Option Bytes
  pub ip_addr_mode : ℕ
  pub dns_server : List Bytes
  pub network_interfaces : List NetworkInterface
  pub bonding_mode : Option ℕ
  pub bond_name : Option Text
  pub os_pkg_pointer : Option Text
  pub description : Option Text

pub record Stboot (nl : Netlink) : Type 1 where
  -- the EFI variable's name and the JSON of a configuration
  pub host : Host
  -- the configuration with these fields
  pub config_of : HostConfig nl.Addr → host.Config
  -- host.IPStatic, host.IPDynamic, host.BondingUnknown and host.StringToBondingMode
  pub ip_static : ℕ
  pub ip_dynamic : ℕ
  pub bonding_unknown : ℕ
  pub string_to_bonding_mode : Text → ℕ
  -- network.SetupNetworkInterface
  pub setup_network_interface : HostConfig nl.Addr → Exec nl.State (Unit {0})
