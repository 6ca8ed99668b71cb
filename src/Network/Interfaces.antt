-- ===== src/Network/Interfaces.antt =====
-- internal/network/network.go: the loop over the interfaces and what is done to their links. A
-- callback that sets variables of the function around it has them as the second part of its state.
pub mod Reset
pub mod Fold
pub mod Names
use stprov.Prelude.{
  ℕ, Bool, true, Option, none, some, List, [], ◌∷◌, ◌++◌, Text, Bytes, codes, text_eq, is_empty,
  ◌==◌, not, if◌then◌else◌, Error, msg, Result, ok, err,
}
use stprov.Prelude.Bits.{bit_and}
use stprov.Prelude.Errors
use stprov.Prelude.Exec.{Exec, pure, raise, lift, reads, context, ◌>>=◌, ◌>>◌}
use stprov.Net.{Net}
use stprov.Network.Netlink.{Netlink, Link, Interface, Route}

module _ (nl : Netlink) where
  open nl use {
    State, Addr, interfaces, link_by_name, addr_list, addr_add, addr_del, link_set_up,
    link_set_down, route_add, Pinger, mac_string, flag_loopback, scope_universe,
  }

  module _ {A : Type 0} where
    -- A call of the kernel that leaves the variables alone.
    abbrev pub kernel : {B : Type 0} → Exec State B → Exec (State × A) B
    kernel m s = ((m s.0).0, ((m s.0).1, s.1))

    -- The loop of `ForEachInterface`.
    unfoldable pub for_each_loop :
        (Link → Exec (State × A) (Unit {0})) → List Interface → Exec (State × A) (Unit {0})
    for_each_loop f [] = pure tt
    for_each_loop f (i ∷ is) =
        let rest = for_each_loop f is in
        if bit_and i.flags flag_loopback == 0
        then (do link ← reads λ s. link_by_name i.name s.0; f link; rest)
        else rest

    unfoldable pub for_each_interface :
        (Link → Exec (State × A) (Unit {0})) → Exec (State × A) (Unit {0})
    unfolding for_each_loop
    for_each_interface f = do
      is ← context (codes "failed accessing interfaces") (reads λ s. interfaces s.0)
      for_each_loop f is

  -- The result of a loop without variables.
  abbrev pub plainly : {B : Type 0} → Exec (State × Unit {0}) B → Exec State B
  plainly m s = ((m (s, tt)).0, (m (s, tt)).1.0)

  -- What a loop, whose error is dropped, has made of its variables.
  abbrev pub variables : {A : Type 0} → Exec (State × A) (Unit {0}) → A → State → A × State
  variables m a s = ((m (s, a)).1.1, (m (s, a)).1.0)

  abbrev pub listed : List Addr × Option Error → Result (List Addr)
  listed (addrs, none) = ok addrs
  listed (addrs, some e) = err e

  unfoldable pub del_addrs : Link → List Addr → Exec State (Unit {0})
  del_addrs link [] = pure tt
  del_addrs link (addr ∷ addrs) = do
    context (link.name ++ codes ": failed resetting address") (addr_del link addr)
    del_addrs link addrs

  -- The callback of `ResetInterfaces`.
  unfoldable pub reset_link : Link → Exec State (Unit {0})
  unfolding del_addrs
  reset_link link = do
    addrs ←
        context (link.name ++ codes ": failed accessing address")
          (reads λ s. listed (addr_list link s))
    del_addrs link addrs
    context (link.name ++ codes ": set link down") (link_set_down link)

  unfoldable pub reset_interfaces : Exec State (Unit {0})
  unfolding for_each_interface reset_link
  reset_interfaces = plainly (for_each_interface λ link. kernel (reset_link link))

  unfoldable pub has_addrs : Link → State → Bool
  has_addrs link s = not (is_empty (addr_list link s).0)

  -- `confLink`; a nil gateway is none
  unfoldable pub conf_link : Link → Option Bytes → Addr → Exec State (Unit {0})
  conf_link link gw addr = do
    context (codes "failed addradd") (addr_add link addr)
    context (codes "failed linksetup") (link_set_up link)
    context (codes "failed routeadd") (
        route_add
          (record { scope = scope_universe; link_index = link.index; gw = gw; priority = 100 }))

  unfoldable pub new_pinger : Text → Result Pinger
  new_pinger addr = Errors.◌>>=◌ (nl.new_pinger addr) λ pinger. ok (nl.set_privileged true pinger)

  -- `Pinger.Run`, with the error of the context and the number of packets
  unfoldable pub run_pinger : Option Error → Pinger → ℕ → Exec State ℕ
  run_pinger (some e) pinger count = raise e
  run_pinger none pinger count = nl.run_pinger pinger count

  -- `testGateway`, of the gateway's text: three packets, and a context that was just made
  unfoldable pub test_gateway : Text → Exec State (Unit {0})
  unfolding new_pinger run_pinger
  test_gateway gw = do
    pinger ← lift (new_pinger gw)
    received ← run_pinger none pinger 3
    if received == 0 then raise (msg (codes "couldn't ping gateway address " ++ gw)) else pure tt

  -- `GetInterfaceName`; the error of the loop is dropped
  unfoldable pub get_interface_name : Bytes → State → Text
  unfolding for_each_interface
  get_interface_name mac s =
      (variables
        (for_each_interface λ link t. (
          ok tt,
          (
            t.0,
            if text_eq (mac_string link.hardware_addr) (mac_string mac) then link.name else t.1,
          ),
        ))
        [] s).0

  -- `GetHardwareAddr`, none for nil; the error of the loop is dropped
  unfoldable pub get_hardware_addr : Text → State → Option Bytes
  unfolding for_each_interface
  get_hardware_addr name s =
      (variables
        (for_each_interface
          λ link t. (ok tt, (t.0, if text_eq link.name name then some link.hardware_addr else t.1)))
        none s).0
