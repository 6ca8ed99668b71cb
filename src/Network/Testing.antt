-- ===== src/Network/Testing.antt =====
-- `TestInterfaces` (internal/network/network.go): the links over which the gateway answers.
pub mod Answered
use stprov.Prelude.{
  Option, none, some, List, [], ◌∷◌, ◌++◌, Text, Bytes, codes, has_prefix, if◌then◌else◌, Result,
  ok, err,
}
use stprov.Prelude.Int.{ℤ}
use stprov.Prelude.Exec.{Exec, lift, context, ◌>>=◌, ◌>>◌}
use stprov.Net.{Net}
use stprov.Network.{LinkWithSpeed, links_by_descending_speed}
use stprov.Network.Netlink.{Netlink, Link}
use stprov.Network.Interfaces.{
  for_each_interface, has_addrs, conf_link, test_gateway, reset_interfaces, kernel, variables,
}
use stprov.Network.Device.{wait_for_device_event, get_device_speed}

-- IP.String of what net.ParseIP returns, which may be nil
abbrev pub ip_text : Net → Option Bytes → Text
ip_text net none = codes "<nil>"
ip_text net (some ip) = net.ip_string ip

module _ (net : Net) (nl : Netlink) where
  open nl use {State, Addr, parse_addr}

  abbrev pub Devices : Type 0
  Devices = List (LinkWithSpeed Link)

  -- A call whose error is dropped.
  abbrev pub ignored : {A : Type 0} → Exec State A → Exec State (Unit {0})
  ignored m s = (ok tt, (m s).1)

  -- What the test of a link that is configured has made of the list of devices.
  abbrev pub appended :
      Link → Result (Unit {0}) × State → Devices → Exec (State × Devices) (Unit {0})
  appended link (err e, s) devices _ = (ok tt, (s, devices))
  appended link (ok u, s) devices _ = (
    ok tt,
    (
      s,
      devices
          ++ record {
            link = link;
            bits_per_second = (get_device_speed nl link.name s).bits_per_second;
          }
            ∷ [],
    ),
  )

  -- The callback of `TestInterfaces`.
  unfoldable pub test_link : Option Bytes → Addr → ℤ → Link → Exec (State × Devices) (Unit {0})
  unfolding has_addrs
  test_link gw addr wait link s =
      if has_prefix link.name (codes "bond")
      then (ok tt, s)
      else if has_addrs nl link s.0
      then (ok tt, s)
      else (do
        kernel nl
            (context (codes "failed to configure link " ++ link.name) (conf_link nl link gw addr))
        kernel nl (ignored (wait_for_device_event nl wait))
        λ t. appended link (test_gateway nl (ip_text net gw) t.0) t.1 t
        kernel nl (ignored (reset_interfaces nl)))
          s

  -- The devices are those found before an error of the loop, which is dropped.
  abbrev pub found : Text → ℤ → Addr → State → Result (List Link) × State
  found gw wait addr s =
      let tested =
        variables nl (for_each_interface nl (test_link (net.parse_ip gw) addr wait)) [] s in
      (ok (links_by_descending_speed tested.0), tested.1)

  unfoldable pub test_interfaces : Text → Text → ℤ → Exec State (List Link)
  unfolding test_link for_each_interface
  test_interfaces gw addr wait = do a ← lift (parse_addr addr); found gw wait a
