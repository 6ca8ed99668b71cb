-- ===== src/Remote/Main/Commands/Served.antt =====
-- `stprov remote run` after `stprov remote static` or `stprov remote dhcp` (subcmd/remote/remote.go, subcmd/remote/run/run.go).
use stprov.Prelude.{
  Option, none, some, List, Text, Bytes, codes, Result, ok, err, Result-cases, ◌⊎◌, inl, inr, ◌≡◌,
  refl, sym, ap, ◌∙◌, arith,
}
use stprov.Prelude.Int.{ℤ}
use stprov.Efi.{IsStore}
use stprov.St.{read_host_name}
use stprov.Remote.Commit.{efi_host_name, efi_key_name}
use stprov.Remote.Commit.Persists.{IsHost}
use stprov.Remote.Run.{Session}
use stprov.Remote.Run.Persists.{IsConfirmed, IsPersisted, listens_on, main-IsPersisted}
use stprov.Remote.Main.{RemoteOptions, Prepared, host_name_of, fmt_err}
use stprov.Remote.Main.Commands.{Machine, State, run_command, main, dispatch, ran}
use stprov.Remote.Main.Commands.Configured.{
  some_pair, fmt_err-eq_ok, prepared, main_unprepared, prepare-eq_ok, prepared-IsHost, Configure,
  IsMade, main-IsMade, static-IsCommand,
}
use stprov.Remote.Main.Commands.Dynamic.{dhcp-IsCommand}

module _ (m : Machine) (store : IsStore m.p.efi) where
  open m use {p, nl, stboot, heads}

  main_run :
      (o : RemoteOptions) (session : Session p) (s : State m) (d : Prepared p.efi)
      → o.command ≡ codes "run"
      → prepared m store o s.0 ≡ ok d
      → main m o session s ≡ run_command m o d session s
  unfolding main dispatch
  main_run o session s d c q = rw (q, c) refl

  ran-eq_some :
      (name : Text) (s : State m) (r : Option (Result (Unit {0}) × p.efi.State)) {s' : State m}
      → ran m name s r ≡ some (ok tt, s')
      → r ≡ some (ok tt, s'.1.1)
  ran-eq_some name s none h = cc
  ran-eq_some name s (some (r, nvram)) {s'} h =
      let (result, state) = some_pair (fmt_err name r, (s.0, (s.1.0, nvram))) (ok tt, s') h in
      let is_ok = fmt_err-eq_ok name r result in rw (is_ok, ap (λ (t : State m). t.1.1) state) refl

  listens_on-host_name :
      (args : List Text) (port : ℤ) (ip : Text) (allowed : List Text) (otp : Text) (id : p.efi.Guid)
      (name host_name hostname : Text) (s : p.efi.State) {x : _}
      → read_host_name p.efi id name s ≡ ok host_name
      → listens_on p store args port ip allowed otp id name s ≡ ok (x, hostname)
      → hostname ≡ host_name
  listens_on-host_name args port ip allowed otp id name host_name hostname s q h = ground arith

  -- What `stprov remote run` has done when it succeeds: the server was confirmed for a secret under
  -- a host name, and the secret's host key is left in the EFI variables.
  pub record IsServed (o : RemoteOptions) (session : Session p) (host_name : Text) (id : p.efi.Guid)
      (s s' : p.efi.State) : Type 0 where
    pub uds : Bytes
    pub host_ip : Text
    pub allowed_cidrs : List Text
    pub confirmed :
        IsConfirmed p store
          (listens_on p store o.args o.port host_ip allowed_cidrs o.otp id efi_host_name s)
          o.otp
          session
          s
          uds
    pub same_name : confirmed.hostname ≡ host_name
    pub persisted : IsPersisted p store id efi_key_name uds s'

  -- The command makes a configuration.
  abbrev pub Configures : RemoteOptions → Type 0
  Configures o = (o.command ≡ codes "static") ⊎ (o.command ≡ codes "dhcp")

  -- The host name of the options is what `run` reads.
  IsMade-host_name :
      (o : RemoteOptions) (s s' : State m) (var : Text × p.efi.Guid) (configure : Configure m store)
      → IsHost heads p.efi stboot.host store var
      → IsMade m store o s s' configure
      → read_host_name p.efi var.1 efi_host_name s'.1.1 ≡ ok (host_name_of o)
  IsMade-host_name o s s' var configure v made =
      rw
        (
          ← prepared-IsHost m store o s.0 var v made.is_prep,
          ← (prepare-eq_ok m store o s.0 made.is_prep).0,
        )
        made.committed.persisted.0

  configured-host_name :
      (o : RemoteOptions) (session : Session p) (s s' : State m) (var : Text × p.efi.Guid)
      → Configures o
      → IsHost heads p.efi stboot.host store var
      → main m o session s ≡ some (ok tt, s')
      → read_host_name p.efi var.1 efi_host_name s'.1.1 ≡ ok (host_name_of o)
  configured-host_name o session s s' var (inl c) v h =
      IsMade-host_name o s s' var _ v
        (main-IsMade m store o session s s' var _ (static-IsCommand m store o session s c) v h)
  configured-host_name o session s s' var (inr c) v h =
      IsMade-host_name o s s' var _ v
        (main-IsMade m store o session s s' var _ (dhcp-IsCommand m store o session s c) v h)

  -- After `stprov remote static` or `stprov remote dhcp` has succeeded, a `stprov remote run` that
  -- succeeds has served under the host name of the first command's options, and leaves the host key
  -- of the secret that was committed.
  pub run-configured :
      (o o' : RemoteOptions) (session session' : Session p) (s s' s'' : State m)
      (var : Text × p.efi.Guid)
      → Configures o
      → o'.command ≡ codes "run"
      → IsHost heads p.efi stboot.host store var
      → main m o session s ≡ some (ok tt, s')
      → main m o' session' s' ≡ some (ok tt, s'')
      → IsServed o' session' (host_name_of o) var.1 s'.1.1 s''.1.1
  unfolding run_command
  run-configured o o' session session' s s' s'' var c c' v h h' =
      elim (Result-cases (prepared m store o' s'.0)) [
        | inr (e, q) ↦
            let (result, state) =
              some_pair (fmt_err o'.command (err e), s') (ok tt, s'')
                (sym (main_unprepared m store o' session' s' e q) ∙ h') in
            let impossible : err e ≡ ok tt = fmt_err-eq_ok o'.command (err e) result in cc
        | inl (d, q) ↦
            let is_read = configured-host_name o session s s' var c v h in
            let same = prepared-IsHost m store o' s'.0 var v q in
            let served = ran-eq_some o'.command s' _ (sym (main_run o' session' s' d c' q) ∙ h') in
            let (uds, confirmed, persisted) =
              main-IsPersisted p store o'.args o'.port d.host_ip d.allowed_cidrs o'.otp var.1
                efi_key_name efi_host_name session' s'.1.1 (rw (← same) served) in
            record {
              uds = uds;
              host_ip = d.host_ip;
              allowed_cidrs = d.allowed_cidrs;
              confirmed = confirmed;
              same_name =
                  listens_on-host_name o'.args o'.port d.host_ip d.allowed_cidrs o'.otp var.1
                    efi_host_name (host_name_of o) confirmed.hostname s'.1.1 is_read
                    confirmed.is_on;
              persisted = persisted;
            }
      ]
