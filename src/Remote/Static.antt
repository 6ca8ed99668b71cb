-- ===== src/Remote/Static.antt =====
-- subcmd/remote/static/static.go: the configuration of a static network.
pub mod Complete
pub mod Autodetect
use stprov.Prelude.{
  ℕ, Bool, true, false, ◌&&◌, ◌||◌, Option, none, some, List, [], ◌∷◌, ◌++◌, map, Text, Bytes,
  codes, join, is_empty, ◌==◌, not, if◌then◌else◌, Error, msg, Result, ok, err,
}
use stprov.Prelude.Int.{ℤ}
use stprov.Prelude.Errors
use stprov.Prelude.Exec.{Exec, pure, raise, lift, reads, context, ◌>>=◌, ◌>>◌}
use stprov.Net.{Net}
use stprov.Network.Netlink.{Netlink, Link}
use stprov.Network.Interfaces.{reset_interfaces, get_interface_name, get_hardware_addr}
use stprov.Network.Testing.{test_interfaces}
use stprov.Options.{validate_host_and_gateway}
use stprov.Options.Interfaces.{default_interfaces}
use stprov.Remote.Config.{HostConfig, NetworkInterface, Stboot}

abbrev pub bonding_name : Text
bonding_name = codes "bond0"

-- The command line of `stprov remote static`.
pub record StaticOptions : Type 0 where
  pub args : List Text
  pub dns_servers : List Bytes
  pub interface : Text
  pub host_ip : Text
  pub gateway : Text
  pub interface_wait : ℤ
  pub autodetect : Bool
  pub bonding_auto : Bool
  pub bonding_interfaces : List Text
  pub bonding_mode : Text
  pub force : Bool
  pub try_last_gateway : Bool

abbrev pub no_args : List Text → Result (Unit {0})
no_args args =
    Errors.fail_if (not (is_empty args))
      (msg (codes "trailing arguments: [" ++ join args (codes " ") ++ codes "]"))

module _ (net : Net) (nl : Netlink) (stboot : Stboot nl) where
  open nl use {State, Addr, link_by_name, parse_addr, parse_mac, mac_string}

  -- The interface option, or the address of the first interface to bond.
  unfoldable pub first_bonded : List Text → Text → Exec State Text
  first_bonded [] interface = pure interface
  first_bonded (name ∷ names) interface = do
    link ← context (name ++ codes ": invalid first bonded interface") (reads (link_by_name name))
    pure (mac_string link.hardware_addr)

  -- What the autodetection chooses of the devices that it found: the interface and those to bond.
  abbrev pub chosen :
      Bool → Text → List Text → Result (List Link) × State → Result (Text × List Text) × State
  chosen auto interface bonded (err e, s) = (ok (interface, bonded), s)
  chosen auto interface bonded (ok [], s) = (ok (interface, bonded), s)
  chosen auto interface bonded (ok (link ∷ links), s) = (
    ok (
      mac_string link.hardware_addr,
      if auto then bonded ++ map (λ (l : Link). l.name) (link ∷ links) else bonded,
    ),
    s,
  )

  unfoldable pub autodetected : StaticOptions → Text → Text → Exec State (Text × List Text)
  autodetected o gateway interface s =
      if is_empty interface && (o.autodetect || o.bonding_auto)
      then chosen o.bonding_auto interface o.bonding_interfaces
          (test_interfaces net nl gateway o.host_ip o.interface_wait s)
      else (ok (interface, o.bonding_interfaces), s)

  -- The first of the default interfaces. An index out of range is an error value.
  abbrev pub first_mac : Result (List Bytes) → Result Text
  first_mac (err e) = err (msg (codes "no suitable network interface available"))
  first_mac (ok []) = err (msg (codes "panic: index out of range"))
  first_mac (ok (mac ∷ macs)) = ok (mac_string mac)

  unfoldable pub with_default : ℤ → Text → Exec State Text
  with_default wait interface s =
      if is_empty interface
      then (first_mac (default_interfaces nl wait s).0, (default_interfaces nl wait s).1)
      else (ok interface, s)

  -- The hardware address that is chosen for the interface, and the interfaces to bond.
  unfoldable pub interface_of : StaticOptions → Text → Exec State (Text × List Text)
  unfolding first_bonded autodetected with_default
  interface_of o gateway = do
    interface ← first_bonded o.bonding_interfaces o.interface
    found ← autodetected o gateway interface
    mac_text ← with_default o.interface_wait found.0
    pure (mac_text, found.1)

  -- The configuration with the interfaces to bond, if there are any.
  unfoldable pub with_bonding :
      Text → List Text → HostConfig Addr → State → Result (HostConfig Addr)
  with_bonding mode [] cfg s = ok cfg
  with_bonding mode (name ∷ names) cfg s =
      if stboot.string_to_bonding_mode mode == stboot.bonding_unknown
      then err (msg (codes "bonding mode unknown: " ++ mode))
      else ok (record cfg {
        bonding_mode = some (stboot.string_to_bonding_mode mode);
        network_interfaces =
            map
              (λ iface. record {
                interface_name = iface;
                mac_address = get_hardware_addr nl iface s;
              })
              (name ∷ names);
        bond_name = some bonding_name;
      })

  abbrev pub static_of : List Bytes → Text → Bytes → Addr → Bytes → HostConfig Addr
  static_of dns_servers ifname mac host_ip gateway = record {
    host_ip = some host_ip;
    default_gateway = some gateway;
    ip_addr_mode = stboot.ip_static;
    dns_server = dns_servers;
    network_interfaces = record { interface_name = ifname; mac_address = some mac } ∷ [];
    bonding_mode = none;
    bond_name = none;
    os_pkg_pointer = none;
    description = none;
  }

  -- `Config` once the options are read: from the reset of the interfaces on.
  unfoldable pub configured :
      StaticOptions → List Text → Bytes → Addr → Bytes → Exec State (HostConfig Addr)
  unfolding with_bonding
  configured o bonded mac host_ip gateway = do
    context (codes "failed to reset network interfaces") (reset_interfaces nl)
    ifname ← reads λ s. ok (get_interface_name nl mac s)
    cfg ←
        reads
          (with_bonding o.bonding_mode bonded (static_of o.dns_servers ifname mac host_ip gateway))
    context (codes "setup network") (stboot.setup_network_interface cfg)
    pure cfg

  unfoldable pub config : StaticOptions → Exec State (HostConfig Addr)
  unfolding interface_of configured
  config o = do
    lift (no_args o.args)
    gateway ← lift (validate_host_and_gateway net o.host_ip o.gateway o.force o.try_last_gateway)
    found ← interface_of o gateway
    mac ←
        lift (Errors.instead (msg (codes "malformed mac address: " ++ found.0)) (parse_mac found.0))
    host_ip ← context (codes "malformed host address") (lift (parse_addr o.host_ip))
    gw ←
        lift (Errors.or_error (msg (codes "malformed gateway: " ++ gateway)) (net.parse_ip gateway))
    configured o found.1 mac host_ip gw
