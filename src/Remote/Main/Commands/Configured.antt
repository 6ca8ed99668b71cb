-- ===== src/Remote/Main/Commands/Configured.antt =====
-- What `stprov remote static` leaves, and what `stprov remote run` makes of it
-- (subcmd/remote/remote.go, subcmd/remote/run/run.go).
use stprov.Prelude.{
  some, List, [], ◌∷◌, Text, codes, join, Error, Result, ok, err, Result-cases, inl, inr, ◌≡◌, refl,
  sym, ◌∙◌, arith,
}
use mathlib.Core.Path.{subst}
use stprov.Prelude.Exec.{Exec}
use stprov.Efi.{IsStore}
use stprov.Remote.Config.{HostConfig}
use stprov.Remote.Static.Complete.{IsComplete, config-IsComplete}
use stprov.Remote.Static
use stprov.Remote.Commit.{commit_config}
use stprov.Remote.Commit.Persists.{IsHost, IsChecked, IsPersisted, commit_config-IsPersisted}
use stprov.Remote.Run.{Session}
use stprov.Remote.Main.{RemoteOptions, Prepared, prepare, host_name_of, fmt_err}
use stprov.Remote.Main.Commands.{
  Machine, State, committed, described, static_options_of, static_command, main, dispatch, named,
}

pub fmt_err-eq_ok :
    {A : Type 0} (name : Text) (r : Result A) {a : A} → fmt_err name r ≡ ok a → r ≡ ok a
unfolding fmt_err
fmt_err-eq_ok [] (ok b) h = h
fmt_err-eq_ok [] (err e) h = cc
fmt_err-eq_ok (c ∷ name) (ok b) h = h
fmt_err-eq_ok (c ∷ name) (err e) h = cc

pub some_pair : {A B : Type 0} (x y : A × B) → some x ≡ some y → (x.0 ≡ y.0) × (x.1 ≡ y.1)
some_pair x y h = ground arith

module _ (m : Machine) (store : IsStore m.p.efi) where
  open m use {p, nl, stboot, heads}

  abbrev pub prepared : RemoteOptions → nl.State → Result (Prepared p.efi)
  prepared = prepare p.net nl p.efi stboot.host m.parse_duration

  -- The configuration was made, its URLs were checked, and it is read back with the host name.
  pub record IsCommitted (o : RemoteOptions) (d : Prepared p.efi) (cfg : HostConfig nl.Addr)
      (net : heads.Net) (nvram : p.efi.State) : Type 0 where
    pub urls : List Text
    pub checked : IsChecked heads p.efi stboot.host o.url urls o.user o.password o.force net
    pub persisted :
        IsPersisted heads p.efi stboot.host store d.variable d.host_name
          (described m cfg (join urls (codes ",")))
          nvram

  committed-IsCommitted :
      (o : RemoteOptions) (d : Prepared p.efi) (configure : _) (s : State m)
      → IsHost heads p.efi stboot.host store d.variable
      → (committed m o d configure s).0 ≡ ok tt
      → (cfg : HostConfig nl.Addr) × ((configure s.0).0 ≡ ok cfg)
        × IsCommitted o d cfg s.1.0 (committed m o d configure s).1.1.1
  unfolding committed
  committed-IsCommitted o d configure s v h = elim (Result-cases (configure s.0).0) [
    | inr (e, q) ↦ absurd (ground arith)
    | inl (cfg, q) ↦
        let done : (commit_config heads p.efi stboot.host d.host_name (described m cfg) o.url o.user
              o.password o.force s.1).0
            ≡ ok tt =
          rw q at h in
        let (urls, checked, persisted) =
          commit_config-IsPersisted heads p.efi stboot.host store d.variable v d.host_name
            (described m cfg) o.url o.user o.password o.force s.1.0 s.1.1 done in
        (cfg, q, rw q (record { urls = urls; checked = checked; persisted = persisted }))
  ]

  pub prepare-eq_ok :
      (o : RemoteOptions) (s : nl.State) {d : Prepared p.efi}
      → prepared o s ≡ ok d
      → (d.host_name ≡ host_name_of o)
        × (stprov.St.host_config_efi_variable_name p.efi stboot.host ≡ ok d.variable)
  unfolding prepare
  prepare-eq_ok o s h = (ground arith, ground arith)

  named-eq_some :
      (name : Text) (r : Result (Unit {0}) × State m) {s' : State m}
      → named m name r ≡ some (ok tt, s')
      → (r.0 ≡ ok tt) × (r.1 ≡ s')
  named-eq_some name (r, s) {s'} h =
      let (result, state) = some_pair (fmt_err name r, s) (ok tt, s') h in
      (fmt_err-eq_ok name r result, state)

  pub main_unprepared :
      (o : RemoteOptions) (session : Session p) (s : State m) (e : Error)
      → prepared o s.0 ≡ err e
      → main m o session s ≡ some (fmt_err o.command (err e), s)
  unfolding main dispatch
  main_unprepared o session s e q = rw q refl

  pub prepared-IsHost :
      (o : RemoteOptions) (s : nl.State) {d : Prepared p.efi} (var : Text × p.efi.Guid)
      → IsHost heads p.efi stboot.host store var
      → prepared o s ≡ ok d
      → d.variable ≡ var
  prepared-IsHost o s var v q = let same = (prepare-eq_ok o s q).1 in let is_var = v.is_var in cc

  -- How a command makes a configuration.
  abbrev pub Configure : Type 0
  Configure = Prepared p.efi → Exec nl.State (HostConfig nl.Addr)

  -- The command commits what it configures.
  abbrev pub IsCommand : RemoteOptions → Session p → State m → Configure → Type 0
  IsCommand o session s configure =
      (d : Prepared p.efi)
      → prepared o s.0 ≡ ok d
      → main m o session s ≡ named m o.command (committed m o d (configure d) s)

  -- The options were prepared, and the configuration that was made of them is committed.
  pub record IsMade (o : RemoteOptions) (s s' : State m) (configure : Configure) : Type 0 where
    pub prep : Prepared p.efi
    pub is_prep : prepared o s.0 ≡ ok prep
    pub cfg : HostConfig nl.Addr
    pub is_cfg : (configure prep s.0).0 ≡ ok cfg
    pub committed : IsCommitted o prep cfg s.1.0 s'.1.1

  pub main-IsMade :
      (o : RemoteOptions) (session : Session p) (s s' : State m) (var : Text × p.efi.Guid)
      (configure : Configure)
      → IsCommand o session s configure
      → IsHost heads p.efi stboot.host store var
      → main m o session s ≡ some (ok tt, s')
      → IsMade o s s' configure
  main-IsMade o session s s' var configure command v h = elim (Result-cases (prepared o s.0)) [
    | inr (e, q) ↦
        let (result, state) =
          some_pair (fmt_err o.command (err e), s) (ok tt, s')
            (sym (main_unprepared o session s e q) ∙ h) in
        let impossible : err e ≡ ok tt = fmt_err-eq_ok o.command (err e) result in cc
    | inl (d, q) ↦
        let (is_ok, same) =
          named-eq_some o.command (committed m o d (configure d) s) (sym (command d q) ∙ h) in
        let is_host =
          subst (IsHost heads p.efi stboot.host store) (sym (prepared-IsHost o s.0 var v q)) v in
        let (cfg, made, done) = committed-IsCommitted o d (configure d) s is_host is_ok in
        record {
          prep = d;
          is_prep = q;
          cfg = cfg;
          is_cfg = made;
          committed = subst (λ t. IsCommitted o d cfg s.1.0 t.1.1) same done;
        }
  ]

  -- What holds when `stprov remote static` has succeeded.
  pub record IsConfigured (o : RemoteOptions) (s s' : State m) : Type 0 where
    pub prep : Prepared p.efi
    pub is_prep : prepared o s.0 ≡ ok prep
    pub cfg : HostConfig nl.Addr
    pub kernel : nl.State
    pub complete : IsComplete p.net nl stboot (static_options_of m o prep) s.0 kernel cfg
    pub committed : IsCommitted o prep cfg s.1.0 s'.1.1

  abbrev pub static_configure : RemoteOptions → Configure
  static_configure o d = Static.config p.net nl stboot (static_options_of m o d)

  pub static-IsCommand :
      (o : RemoteOptions) (session : Session p) (s : State m)
      → o.command ≡ codes "static"
      → IsCommand o session s (static_configure o)
  unfolding main dispatch static_command
  static-IsCommand o session s c d q = rw (q, c) refl

  -- When `stprov remote static` succeeds, the options are complete, the URLs were checked, and the
  -- configuration and the host name of the options are read back from the EFI variables.
  pub static-IsConfigured :
      (o : RemoteOptions) (session : Session p) (s s' : State m) (var : Text × p.efi.Guid)
      → o.command ≡ codes "static"
      → IsHost heads p.efi stboot.host store var
      → main m o session s ≡ some (ok tt, s')
      → IsConfigured o s s'
  static-IsConfigured o session s s' var c v h =
      let made =
        main-IsMade o session s s' var (static_configure o) (static-IsCommand o session s c) v h in
      record {
        prep = made.prep;
        is_prep = made.is_prep;
        cfg = made.cfg;
        kernel = (static_configure o made.prep s.0).1;
        complete =
            config-IsComplete p.net nl stboot (static_options_of m o made.prep) s.0 made.cfg
              made.is_cfg;
        committed = made.committed;
      }
