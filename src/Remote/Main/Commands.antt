-- ===== src/Remote/Main/Commands.antt =====
-- The commands of `Main` (subcmd/remote/remote.go): what `stprov remote` does.
pub mod Checks
pub mod Configured
pub mod Dynamic
pub mod Served
use stprov.Prelude.{
  Bool, ◌||◌, Option, none, some, List, [], ◌∷◌, ◌++◌, Text, codes, text_eq, is_empty,
  if◌then◌else◌, Error, msg, Result, ok, err,
}
use stprov.Prelude.Int.{ℤ}
use stprov.Prelude.Exec.{Exec, ◌>>=◌, ◌>>◌}
use stprov.Api.Server.{Platform}
use stprov.Network.Netlink.{Netlink}
use stprov.Remote.Config.{HostConfig, Stboot}
use stprov.Remote.Static
use stprov.Remote.Static.{StaticOptions}
use stprov.Remote.Dhcp
use stprov.Remote.Commit.{Heads, commit_config, efi_key_name, efi_host_name}
use stprov.Remote.Run
use stprov.Remote.Run.{Session}
use stprov.Remote.Main.{RemoteOptions, Prepared, prepare, fmt_err, format_description}

-- What the commands run on: the platform of the server, the kernel's network, stboot, and the HEAD
-- requests; and the version and the time, as they stand in the description.
pub record Machine : Type 1 where
  pub p : Platform
  pub nl : Netlink
  pub stboot : Stboot nl
  pub heads : Heads
  pub parse_duration : Text → Result ℤ
  pub version : Text
  pub now : Text

module _ (m : Machine) where
  open m use {p, nl, stboot, heads}

  -- The kernel's network, what is at the other end of the HEAD requests, and the EFI variables.
  abbrev pub State : Type 0
  State = nl.State × (heads.Net × p.efi.State)

  abbrev pub on_kernel : {B : Type 0} → Exec nl.State B → Exec State B
  on_kernel act s = ((act s.0).0, ((act s.0).1, s.1))

  abbrev pub off_kernel : {B : Type 0} → Exec (heads.Net × p.efi.State) B → Exec State B
  off_kernel act s = ((act s.1).0, (s.0, (act s.1).1))

  -- The configuration with its description, as a function of the OS package pointer.
  abbrev pub described : HostConfig nl.Addr → Text → stboot.host.Config
  described cfg pointer = stboot.config_of (record cfg {
    os_pkg_pointer = some pointer;
    description = some (format_description m.version m.now);
  })

  unfoldable pub committed :
      RemoteOptions → Prepared p.efi → Exec nl.State (HostConfig nl.Addr) → Exec State (Unit {0})
  committed o d configure = do
    cfg ← on_kernel configure
    off_kernel (
        commit_config heads p.efi stboot.host d.host_name (described cfg) o.url o.user o.password
          o.force)

  abbrev pub static_options_of : RemoteOptions → Prepared p.efi → StaticOptions
  static_options_of o d = record {
    args = o.args;
    dns_servers = d.dns_servers;
    interface = d.mac;
    host_ip = d.host_ip;
    gateway = d.gateway;
    interface_wait = d.interface_wait;
    autodetect = o.autodetect;
    bonding_auto = o.bonding_auto;
    bonding_interfaces = o.bonding_interfaces;
    bonding_mode = o.bonding_mode;
    force = o.force;
    try_last_gateway = o.try_last_gateway;
  }

  unfoldable pub static_command : RemoteOptions → Prepared p.efi → Exec State (Unit {0})
  static_command o d = committed o d (Static.config p.net nl stboot (static_options_of o d))

  unfoldable pub dhcp_command : RemoteOptions → Prepared p.efi → Exec State (Unit {0})
  dhcp_command o d =
      committed o d (Dhcp.config p.net nl stboot o.args d.dns_servers d.mac d.interface_wait)

  -- The result of a command, with the command's name before an error.
  abbrev pub named : Text → Result (Unit {0}) × State → Option (Result (Unit {0}) × State)
  named name (r, s) = some (fmt_err name r, s)

  abbrev pub ran :
      Text → State → Option (Result (Unit {0}) × p.efi.State) → Option (Result (Unit {0}) × State)
  ran name s none = none
  ran name s (some (r, nvram)) = some (fmt_err name r, (s.0, (s.1.0, nvram)))

  unfoldable pub run_command :
      RemoteOptions → Prepared p.efi → Session p → State → Option (Result (Unit {0}) × State)
  run_command o d session s = ran o.command s (
      Run.main p o.args o.port d.host_ip d.allowed_cidrs o.otp d.variable.1 efi_key_name
        efi_host_name session s.1.1)

  unfoldable pub dispatch :
      RemoteOptions
      → Session p
      → Result (Prepared p.efi)
      → State
      → Option (Result (Unit {0}) × State)
  dispatch o session (err e) s = some (fmt_err o.command (err e), s)
  dispatch o session (ok d) s =
      if text_eq o.command (codes "help") || is_empty o.command
      then some (ok tt, s)
      else if text_eq o.command (codes "static")
      then named o.command (static_command o d s)
      else if text_eq o.command (codes "dhcp")
      then named o.command (dhcp_command o d s)
      else if text_eq o.command (codes "run")
      then run_command o d session s
      else some
          (err (msg (codes "invalid command " ++ nl.quoted o.command ++ codes ", try \"help\"")), s)

  -- `Main`, once the command line is parsed: none if the server still waits for a commit. The usage
  -- of `help` is not shown.
  unfoldable pub main : RemoteOptions → Session p → State → Option (Result (Unit {0}) × State)
  main o session s =
      dispatch o session (prepare p.net nl p.efi stboot.host m.parse_duration o s.0) s
