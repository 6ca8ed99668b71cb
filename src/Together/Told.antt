-- ===== src/Together/Told.antt =====
-- What the operator is told by `stprov local run`, and what `stprov remote run` leaves on the platform
-- (subcmd/local/run/run.go, subcmd/remote/run/run.go).
use stprov.Prelude.{
  ℕ, ◌+◌, Bool, some, List, [], ◌∷◌, ◌++◌, Text, Bytes, codes, ok, ◌≡◌, refl, sym, ◌∙◌, ap, arith,
}
use stprov.Prelude.Int.{ℤ}
use stprov.Efi.{IsStore}
use stprov.Net.{IpNet}
use stprov.Ssh.{HostKey, public_key, fingerprint}
use stprov.Secrets.{ssh_host_key}
use stprov.Api.{IsJson, CommitResponse, endpoint_commit}
use stprov.Api.Server.{Server, ServerConfig, Platform, Request, World, new_server}
use stprov.Api.Handler.{path_of}
use stprov.Api.Client.{Client, ClientConfig, new_client}
use stprov.Api.Exchange.{Link}
use stprov.Api.Answer.{commit-IsAnswer}
use stprov.Api.Frame.{fixed-serve_all}
use stprov.Api.Invariant.{serve_all, serve_all-append}
use stprov.Api.Refinement.{new_server-view}
use stprov.Local.Run as Local
use stprov.Local.Run.{Options, FileRead, client_config}
use stprov.Local.Run.Printed.{lines_of, main-IsPrinted}
use stprov.Remote.Run as Remote
use stprov.Remote.Run.{Session, started, config_for, listen}
use stprov.Remote.Run.Persists.{IsPersisted, listens_on, main-IsPersisted}
use stprov.Together.Client.{exchanges-commit, commit-Keeps}
use stprov.Together.Recorded.{Recorded, recorded, IsServed, IsServed-perform, commit-recorded}

module _ (p : Platform) (store : IsStore p.efi) (link : Link) where
  -- The server has the secret with which `listen` returned.
  listen-uds :
      (otp : Text) (nets : List IpNet) (ip : Bytes) (port : ℕ) (hostname : Text)
      (session : Session p) (s : p.efi.State) (srv : Server p.crypto) (uds : Bytes)
      {nvram : p.efi.State}
      → new_server p.crypto p.net (config_for p otp nets ip port hostname) ≡ ok srv
      → listen p otp nets ip port hostname session s ≡ some (ok (some uds), nvram)
      → (serve_all p session.arrivals (started p srv session s)).server.uds ≡ some uds
  unfolding listen
  listen-uds otp nets ip port hostname session s srv uds made h = ground (arith, made)

  -- The secret of the server, its host key, and the host name, in what the client was told.
  record IsToldOf (cr : CommitResponse) (w : World p) : Type 0 where
    uds : Bytes
    is_uds : w.server.uds ≡ some uds
    host_key : HostKey
    is_host_key : ssh_host_key p.crypto uds ≡ ok host_key
    same_public_key : public_key p.crypto host_key ≡ ok cr.public_key
    same_fingerprint : fingerprint p.crypto host_key ≡ ok cr.fingerprint
    same_host_name : cr.host_name ≡ w.server.host_name

  module _ (is_json : IsJson p.json) (read_file : Text → FileRead) where
    -- The URL at which the command line's client commits is that of the server's handler.
    abbrev pub IsRouted : Options → Type 0
    IsRouted o =
        (cfg : ClientConfig × Bool) (c : Client p.crypto)
        → client_config p.net read_file o ≡ ok cfg
        → new_client p.crypto p.net cfg.0 ≡ ok c
        → link.url_path (c.server_url ++ endpoint_commit) ≡ path_of p endpoint_commit

    -- After the exchanges, whatever was done before.
    main-IsToldOf :
        (o : Options) (routed : IsRouted o) (now : ℤ) (rand : p.crypto.Reader) (w : World p)
        (lines : List Text)
        → let run = Local.main p.net read_file p.crypto (recorded p link) now o (rand, (w, [])) in
          (run.0 ≡ ok lines)
          → (cr : CommitResponse) × (lines
              ≡ lines_of p.net read_file p.crypto (recorded p link) now o cr)
            × IsToldOf cr (serve_all p run.1.1.1 w)
    main-IsToldOf o routed now rand w lines h =
        let t = recorded p link in
        let pr = main-IsPrinted p.net read_file p.crypto t now o (rand, (w, [])) lines h in
        let (s', served, done, same) =
          exchanges-commit p.crypto t (IsServed p link w) (λ _. Unit {0})
            (λ o r _. IsServed-perform p link w o r) pr.client now pr.config.1 (rand, (w, []))
            (λ _. tt) (unfold serve_all in refl) pr.is_response in
        let (told, left) = commit-recorded p link pr.client s'.0 s'.1 in
        let answer =
          commit-IsAnswer p link is_json pr.client s'.0 s'.1.0 pr.response
            (routed pr.config pr.client pr.is_config pr.is_client) (sym told ∙ done) in
        let after =
          commit-Keeps p.crypto t (IsServed p link w) (λ _. Unit {0})
            (λ o r _. IsServed-perform p link w o r) pr.client tt s' served in
        let end = ap (λ (r : p.crypto.Reader × Recorded p link). r.1) (pr.same_state ∙ same) in
        let server : (serve_all p
              (Local.main p.net read_file p.crypto t now o (rand, (w, []))).1.1.1 w).server
            ≡ record (s'.1.0.server) { uds = some answer.uds; commit = s'.1.0.server.commit + 1 } =
          rw end (
            ap (λ (v : World p). v.server) (sym after)
            ∙ ap (λ (v : World p). v.server) left
            ∙ answer.server_kept) in
        (
          pr.response,
          pr.is_lines,
          record {
            uds = answer.uds;
            is_uds = ap (λ (v : Server p.crypto). v.uds) server;
            host_key = answer.host_key;
            is_host_key = answer.is_host_key;
            same_public_key = answer.same_public_key;
            same_fingerprint = answer.same_fingerprint;
            same_host_name =
                answer.same_host_name ∙ sym (ap (λ (v : Server p.crypto). v.host_name) server);
          },
        )

    -- The host key whose public key and fingerprint were printed stands in the EFI variable.
    pub record IsKeyOf (o : Options) (hostname : Text) (lines : List Text) (id : p.efi.Guid)
        (name : Text) (nvram : p.efi.State) : Type 0 where
      pub uds : Bytes
      pub host_key : HostKey
      pub is_host_key : ssh_host_key p.crypto uds ≡ ok host_key
      pub public : Text
      pub is_public : public_key p.crypto host_key ≡ ok public
      pub print : Text
      pub is_print : fingerprint p.crypto host_key ≡ ok print
      pub is_lines :
          lines
          ≡ (codes "publickey=" ++ public)
            ∷ (codes "fingerprint=" ++ print)
            ∷ (codes "hostname=" ++ hostname)
            ∷ (codes "ip=" ++ o.ip)
            ∷ []
      pub persisted : IsPersisted p store id name uds nvram

    -- If `stprov local run` ends well, its exchanges, whose commit is routed to the handler, are the
    -- last requests that the server of `stprov remote run` gets, and that command ends well too, then
    -- the public key and the fingerprint that the operator is shown are those of the host key that is
    -- left in the EFI variable, and the host name shown is the one stored on the platform.
    pub main-IsKeyOf :
        (o : Options) (routed : IsRouted o) (now : ℤ) (rand : p.crypto.Reader) (lines : List Text)
        (before : List (Text × Request)) (session : Session p) (args : List Text) (opt_port : ℤ)
        (opt_ip : Text) (allowed : List Text) (otp : Text) (id : p.efi.Guid)
        (key_name host_name : Text) (s : p.efi.State) (ip : Bytes) (port : ℕ) (nets : List IpNet)
        (hostname : Text) (srv : Server p.crypto) {nvram : p.efi.State}
        → listens_on p store args opt_port opt_ip allowed otp id host_name s
          ≡ ok ((ip, port, nets), hostname)
        → new_server p.crypto p.net (config_for p otp nets ip port hostname) ≡ ok srv
        → let w = serve_all p before (started p srv session s) in
          let run = Local.main p.net read_file p.crypto (recorded p link) now o (rand, (w, [])) in
          (run.0 ≡ ok lines)
          → session.arrivals ≡ before ++ run.1.1.1
          → Remote.main p args opt_port opt_ip allowed otp id key_name host_name session s
            ≡ some (ok tt, nvram)
          → IsKeyOf o hostname lines id key_name nvram
    main-IsKeyOf o routed now rand lines before session args opt_port opt_ip allowed otp id key_name
          host_name s ip port nets hostname srv on made printed arrivals ended =
        let w = serve_all p before (started p srv session s) in
        let (cr, is_lines, told) = main-IsToldOf o routed now rand w lines printed in
        let (uds, c, persisted) =
          main-IsPersisted p store args opt_port opt_ip allowed otp id key_name host_name session s
            ended in
        let first = started p srv session s in
        let all : serve_all p session.arrivals first
            ≡ serve_all p
                (Local.main p.net read_file p.crypto (recorded p link) now o (rand, (w, []))).1.1.1
                w =
          rw arrivals (serve_all-append p before _ first) in
        let same = sym c.is_on ∙ on in
        let is_uds : listen p otp nets ip port hostname session s ≡ some (ok (some uds), c.nvram) =
          ground (arith, c.is_uds, same) in
        let kept = listen-uds otp nets ip port hostname session s srv uds made is_uds in
        let the_same : told.uds ≡ uds =
          ground (arith, sym (ap (λ (v : World p). v.server.uds) all ∙ told.is_uds) ∙ kept) in
        let named : cr.host_name ≡ hostname =
          told.same_host_name
          ∙ ap (λ (v : World p). v.server.host_name) (sym all)
          ∙ ap (λ (f : ServerConfig × Text × p.crypto.KeyPair). f.0.host_name)
              (fixed-serve_all p session.arrivals first)
          ∙ ap (λ (f : ServerConfig). f.host_name)
              (new_server-view p p.net (config_for p otp nets ip port hostname) made).1 in
        record {
          uds = uds;
          host_key = told.host_key;
          is_host_key = rw (← the_same) told.is_host_key;
          public = cr.public_key;
          is_public = told.same_public_key;
          print = cr.fingerprint;
          is_print = told.same_fingerprint;
          is_lines = rw (← named) is_lines;
          persisted = persisted;
        }
