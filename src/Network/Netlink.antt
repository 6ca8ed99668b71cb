-- ===== src/Network/Netlink.antt =====
-- What the code calls of github.com/vishvananda/netlink, github.com/go-ping/ping, Go's net.Interfaces
-- and of /sys/class/net: a parameter of the modules that configure network interfaces. `State` is
-- what the kernel keeps. Time passes inside the calls.
use stprov.Prelude.{ℕ, Bool, Option, List, Text, Bytes, Error, Result}
use stprov.Prelude.Int.{ℤ}
use stprov.Prelude.Exec.{Exec}

-- net.Interface
pub record Interface : Type 0 where
  pub name : Text
  pub flags : ℕ

-- netlink.Link, as its Attrs
pub record Link : Type 0 where
  pub name : Text
  pub hardware_addr : Bytes
  pub index : ℕ
  pub flags : ℕ
  pub raw_flags : ℕ

-- netlink.Route, with the fields that the code sets
pub record Route : Type 0 where
  pub scope : ℕ
  pub link_index : ℕ
  pub gw : Option Bytes
  pub priority : ℕ

-- netlink.LinkUpdate
pub record LinkUpdate : Type 0 where
  pub name : Text
  pub oper_state : ℕ

pub record Netlink : Type 1 where
  pub State : Type 0
  pub Addr : Type 0
  pub Pinger : Type 0
  -- net.Interfaces
  pub interfaces : State → Result (List Interface)
  pub link_by_name : Text → State → Result Link
  -- netlink.AddrList of all families: the addresses and the error
  pub addr_list : Link → State → List Addr × Option Error
  pub addr_add : Link → Addr → Exec State (Unit {0})
  pub addr_del : Link → Addr → Exec State (Unit {0})
  pub link_set_up : Link → Exec State (Unit {0})
  pub link_set_down : Link → Exec State (Unit {0})
  pub route_add : Route → Exec State (Unit {0})
  pub link_subscribe : Exec State (Unit {0})
  -- The first of a link update and the end of a wait of that many nanoseconds, which is none.
  pub next_update : ℤ → State → Option LinkUpdate × State
  -- ping.NewPinger, SetPrivileged, and Run for a number of packets, which Stop ends when the context
  -- is done: how many answers were received
  pub new_pinger : Text → Result Pinger
  pub set_privileged : Bool → Pinger → Pinger
  pub run_pinger : Pinger → ℕ → Exec State ℕ
  -- os.ReadFile below /sys/class/net
  pub read_file : Text → State → Result Bytes
  -- netlink.ParseAddr, net.ParseMAC and HardwareAddr.String
  pub parse_addr : Text → Result Addr
  pub parse_mac : Text → Result Bytes
  pub mac_string : Bytes → Text
  -- strconv.ParseInt(s, 10, 64), strings.TrimSpace and the verb %q
  pub parse_int : Text → Result ℤ
  pub trim_space : Text → Text
  pub quoted : Text → Text
  -- net.FlagUp, net.FlagLoopback, netlink.OperUp and netlink.SCOPE_UNIVERSE
  pub flag_up : ℕ
  pub flag_loopback : ℕ
  pub oper_up : ℕ
  pub scope_universe : ℕ
