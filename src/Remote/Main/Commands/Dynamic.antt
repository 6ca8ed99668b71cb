-- ===== src/Remote/Main/Commands/Dynamic.antt =====
-- What `stprov remote dhcp` leaves (subcmd/remote/remote.go, subcmd/remote/dhcp/dhcp.go).
use stprov.Prelude.{Text, ok, codes, some, ◌≡◌, refl}
use stprov.Efi.{IsStore}
use stprov.Remote.Config.{HostConfig}
use stprov.Remote.Dhcp
use stprov.Remote.Dhcp.Complete.{IsDynamic, config-IsDynamic}
use stprov.Remote.Commit.Persists.{IsHost}
use stprov.Remote.Run.{Session}
use stprov.Remote.Main.{RemoteOptions, Prepared}
use stprov.Remote.Main.Commands.{Machine, State, dhcp_command, main, dispatch}
use stprov.Remote.Main.Commands.Configured.{
  Configure, IsCommand, IsCommitted, prepared, main-IsMade,
}

module _ (m : Machine) (store : IsStore m.p.efi) where
  open m use {p, nl, stboot, heads}

  abbrev pub dhcp_configure : RemoteOptions → Configure m store
  dhcp_configure o d = Dhcp.config p.net nl stboot o.args d.dns_servers d.mac d.interface_wait

  pub dhcp-IsCommand :
      (o : RemoteOptions) (session : Session p) (s : State m)
      → o.command ≡ codes "dhcp"
      → IsCommand m store o session s (dhcp_configure o)
  unfolding main dispatch dhcp_command
  dhcp-IsCommand o session s c d q = rw (q, c) refl

  -- What holds when `stprov remote dhcp` has succeeded.
  pub record IsDynamicallyConfigured (o : RemoteOptions) (s s' : State m) : Type 0 where
    pub prep : Prepared p.efi
    pub is_prep : prepared m store o s.0 ≡ ok prep
    pub cfg : HostConfig nl.Addr
    pub kernel : nl.State
    pub dynamic :
        IsDynamic p.net nl stboot o.args prep.dns_servers prep.mac prep.interface_wait s.0 kernel
          cfg
    pub committed : IsCommitted m store o prep cfg s.1.0 s'.1.1

  -- When `stprov remote dhcp` succeeds, no argument was left over, the interface of the options or
  -- else the first default one was set up for DHCP after all interfaces were reset, the URLs were
  -- checked, and the configuration and the host name of the options are read back from the EFI
  -- variables.
  pub dhcp-IsConfigured :
      (o : RemoteOptions) (session : Session p) (s s' : State m) (var : Text × p.efi.Guid)
      → o.command ≡ codes "dhcp"
      → IsHost heads p.efi stboot.host store var
      → main m o session s ≡ some (ok tt, s')
      → IsDynamicallyConfigured o s s'
  dhcp-IsConfigured o session s s' var c v h =
      let made =
        main-IsMade m store o session s s' var (dhcp_configure o) (dhcp-IsCommand o session s c) v
          h in
      let d = made.prep in
      record {
        prep = d;
        is_prep = made.is_prep;
        cfg = made.cfg;
        kernel = (dhcp_configure o d s.0).1;
        dynamic =
            config-IsDynamic p.net nl stboot o.args d.dns_servers d.mac d.interface_wait s.0
              made.cfg made.is_cfg;
        committed = made.committed;
      }
