-- ===== src/Options/Interfaces.antt =====
-- `DefaultInterfaces` (internal/options/options.go): the interfaces that are up.
use stprov.Prelude.{
  ℕ, Bool, ◌&&◌, List, [], ◌∷◌, ◌++◌, Bytes, codes, has_prefix, is_empty, ◌==◌, not, if◌then◌else◌,
  msg, Result, ok, err,
}
use stprov.Prelude.Bits.{bit_and}
use stprov.Prelude.Int.{ℤ}
use stprov.Prelude.Exec.{Exec}
use stprov.Network.Netlink.{Netlink, Link}
use stprov.Network.Interfaces.{for_each_interface, variables}
use stprov.Network.Device.{wait_for_device_event}

abbrev pub flag_running : ℕ
flag_running = 64

module _ (nl : Netlink) where
  open nl use {State, link_set_up, mac_string, flag_up}

  -- The callback of the first loop.
  unfoldable pub raise_link : ℤ → Link → Exec (State × Unit {0}) (Unit {0})
  raise_link wait link s =
      (ok tt, ((wait_for_device_event nl wait (link_set_up link s.0).1).1, s.1))

  -- The tests of the second loop.
  unfoldable pub is_candidate : Link → Bool
  is_candidate link =
      not (has_prefix link.name (codes "bond"))
      && not (is_empty (mac_string link.hardware_addr))
      && not (bit_and link.flags flag_up == 0)
      && not (bit_and link.raw_flags flag_running == 0)

  -- The callback of the second loop.
  unfoldable pub collect : Link → Exec (State × List Bytes) (Unit {0})
  unfolding is_candidate
  collect link s = (ok tt, (s.0, if is_candidate link then s.1 ++ link.hardware_addr ∷ [] else s.1))

  abbrev pub some_candidate : List Bytes → Result (List Bytes)
  some_candidate [] = err (msg (codes "no default interface available"))
  some_candidate (mac ∷ macs) = ok (mac ∷ macs)

  -- The errors of both loops are dropped.
  unfoldable pub default_interfaces : ℤ → Exec State (List Bytes)
  unfolding collect raise_link
  default_interfaces wait s =
      let raised = (variables nl (for_each_interface nl (raise_link wait)) tt s).1 in
      let candidates = variables nl (for_each_interface nl collect) [] raised in
      (some_candidate candidates.0, candidates.1)
