-- ===== src/Remote/Run/Persists.antt =====
-- What `stprov remote run` leaves in the EFI variables (subcmd/remote/run/run.go).
use stprov.Prelude.{
  ◌++◌, ◌∙◌, codes, ℕ, Option, none, some, List, Text, Bytes, Result, ok, err, Result-cases,
  Option-cases, inl, inr, ◌≡◌, ◌≢◌, refl, arith, ap,
}
use stprov.Prelude.Bits.{bit_or}
use stprov.Prelude.Int.{ℤ}
use stprov.Efi.{IsStore, Descriptor}
use stprov.Ssh.{HostKey, write_pem, write_efi}
use stprov.Secrets.{ssh_host_key}
use stprov.Api.Server.{Platform, Server, new_server}
use stprov.Api.Invariant.{serve_all}
use mathlib.Core.Path.{subst}
use stprov.Net.{IpNet}
use stprov.St.{read_host_name}
use stprov.Prelude.Errors
use stprov.Prelude.Errors.{◌>>=◌, ◌>>◌}
use stprov.Remote.Run.{
  started, config_for, run_server, listen_on, Session, main, listening, listen, write_host_key,
  key_written,
}

module _ (p : Platform) (store : IsStore p.efi) where
  abbrev attributes : ℕ
  attributes =
      bit_or (bit_or p.efi.attribute_bootservice_access p.efi.attribute_runtime_access)
        p.efi.attribute_non_volatile

  -- The variable holds the PEM form of the host key that the secret determines.
  abbrev pub IsPersisted : p.efi.Guid → Text → Bytes → p.efi.State → Type 0
  IsPersisted id name uds s =
      (hk : HostKey) × (pem : Bytes) × (ssh_host_key p.crypto uds ≡ ok hk)
      × (write_pem p.crypto hk ≡ ok pem)
      × (p.efi.read_variable (record { name = name; guid = id }) s ≡ ok (attributes, pem))

  read_variable-write_efi :
      (hk : HostKey) (id : p.efi.Guid) (name : Text) (s : p.efi.State)
      → (write_efi p.crypto p.efi hk id name s).0 ≡ ok tt
      → (pem : Bytes) × (write_pem p.crypto hk ≡ ok pem)
        × (p.efi.read_variable
              (record { name = name; guid = id })
              (write_efi p.crypto p.efi hk id name s).1
            ≡ ok (attributes, pem))
  unfolding write_efi
  read_variable-write_efi hk id name s h = elim (Result-cases (write_pem p.crypto hk)) [
    | inr (e, q) ↦ absurd (ground arith)
    | inl (pem, q) ↦ elim (Result-cases (p.efi.new s)) [
      | inr (e, r) ↦ absurd (ground arith)
      | inl (u, r) ↦
          let d : Descriptor p.efi.Guid = record { name = name; guid = id } in
          (pem, q, ground (arith, store.read-write d attributes pem s store.plain_rotated))
    ]
  ]

  write_host_key-IsPersisted :
      (uds : Bytes) (id : p.efi.Guid) (name : Text) (s : p.efi.State)
      → (write_host_key p uds id name s).0 ≡ ok tt
      → IsPersisted id name uds (write_host_key p uds id name s).1
  unfolding write_host_key
  write_host_key-IsPersisted uds id name s h = elim (Result-cases (ssh_host_key p.crypto uds)) [
    | inr (e, q) ↦ absurd (ground arith)
    | inl (hk, q) ↦
        let (pem, written, is_read) = read_variable-write_efi hk id name s (ground arith) in
        (hk, pem, q, written, rw (q) is_read)
  ]

  key_written-eq_ok :
      (id : p.efi.Guid) (name : Text) (r : Result (Option Bytes) × p.efi.State)
      {nvram : p.efi.State}
      → key_written p id name r ≡ (ok tt, nvram)
      → (uds : Bytes) × (r.0 ≡ ok (some uds)) × IsPersisted id name uds nvram
  key_written-eq_ok id name (err e, s) h = absurd (ground arith)
  key_written-eq_ok id name (ok none, s) h = absurd (ground arith)
  key_written-eq_ok id name (ok (some uds), s) h =
      let is_ok : (write_host_key p uds id name s).0 ≡ ok tt = ground arith in
      let same : (write_host_key p uds id name s).1 ≡ _ = ap (λ r. r.1) h in
      (
        uds,
        refl,
        subst (IsPersisted id name uds) same (write_host_key-IsPersisted uds id name s is_ok),
      )

  -- The server once the requests of the session were served.
  abbrev pub left_by : Session p → p.efi.State → Server p.crypto → Server p.crypto
  left_by session s server = (serve_all p session.arrivals (started p server session s)).server

  -- What `listen` has done when it returns a secret.
  record IsListened (otp : Text) (nets : List IpNet) (ip : Bytes) (port : ℕ) (hostname : Text)
      (session : Session p) (s : p.efi.State) (uds : Bytes) : Type 0 where
    server : Server p.crypto
    is_server : new_server p.crypto p.net (config_for p otp nets ip port hostname) ≡ ok server
    lives : session.died ≡ none
    signalled : (left_by session s server).commit ≢ 0
    has_secret : (left_by session s server).uds ≡ some uds
    line : Text
    is_confirmed : session.confirmation ≡ ok line

  listen-IsListened :
      (otp : Text) (nets : List IpNet) (ip : Bytes) (port : ℕ) (hostname : Text)
      (session : Session p) (s : p.efi.State) (uds : Bytes) {nvram : p.efi.State}
      → listen p otp nets ip port hostname session s ≡ some (ok (some uds), nvram)
      → IsListened otp nets ip port hostname session s uds
  unfolding listen run_server
  listen-IsListened otp nets ip port hostname session s uds h =
      elim (Result-cases (new_server p.crypto p.net (config_for p otp nets ip port hostname))) [
        | inr (e, q) ↦ absurd (ground arith)
        | inl (server, q) ↦ elim (Option-cases session.died) [
          | inr (e, d) ↦ absurd (ground arith)
          | inl d ↦ elim (Result-cases session.confirmation) [
            | inr (e, c) ↦ absurd (ground arith)
            | inl (line, c) ↦ record {
              server = server;
              is_server = q;
              lives = d;
              signalled = ground arith;
              has_secret = ground arith;
              line = line;
              is_confirmed = c;
            }
          ]
        ]
      ]

  -- While a server of the command line's listened, with the host name that was stored, a commit was
  -- signalled, the server has the secret, and a line of the operator was read.
  pub record IsConfirmed (on : Result ((Bytes × ℕ × List IpNet) × Text)) (otp : Text)
      (session : Session p) (s : p.efi.State) (uds : Bytes) : Type 0 where
    pub ip : Bytes
    pub port : ℕ
    pub nets : List IpNet
    pub hostname : Text
    pub nvram : p.efi.State
    pub is_on : on ≡ ok ((ip, port, nets), hostname)
    pub server : Server p.crypto
    pub is_server : new_server p.crypto p.net (config_for p otp nets ip port hostname) ≡ ok server
    pub lives : session.died ≡ none
    pub signalled : (left_by session s server).commit ≢ 0
    pub has_secret : (left_by session s server).uds ≡ some uds
    pub line : Text
    pub is_confirmed : session.confirmation ≡ ok line
    pub is_uds : listen p otp nets ip port hostname session s ≡ some (ok (some uds), nvram)

  listening-IsPersisted :
      (otp : Text) (id : p.efi.Guid) (name : Text) (session : Session p) (s : p.efi.State)
      (on : Result ((Bytes × ℕ × List IpNet) × Text)) {nvram : p.efi.State}
      → listening p otp id name session s on ≡ some (ok tt, nvram)
      → (uds : Bytes) × IsConfirmed on otp session s uds × IsPersisted id name uds nvram
  listening-IsPersisted otp id name session s (err e) h = absurd (ground arith)
  listening-IsPersisted otp id name session s (ok ((ip, port, nets), hostname)) h =
      elim (Option-cases (listen p otp nets ip port hostname session s)) [
        | inl q ↦ absurd (ground arith)
        | inr (r, q) ↦
            let (uds, is_uds, persisted) = key_written-eq_ok id name r (ground arith) in
            let is_some : listen p otp nets ip port hostname session s ≡ some (ok (some uds), r.1) =
              q ∙ ap (λ u. some (u, r.1)) is_uds in
            let l = listen-IsListened otp nets ip port hostname session s uds is_some in
            (
              uds,
              record {
                ip = ip;
                port = port;
                nets = nets;
                hostname = hostname;
                nvram = r.1;
                is_on = refl;
                server = l.server;
                is_server = l.is_server;
                lives = l.lives;
                signalled = l.signalled;
                has_secret = l.has_secret;
                line = l.line;
                is_confirmed = l.is_confirmed;
                is_uds = is_some;
              },
              persisted,
            )
      ]

  -- What `Main` listens on by the command line, and the host name that it reads.
  abbrev pub listens_on :
      List Text
      → ℤ
      → Text
      → List Text
      → Text
      → p.efi.Guid
      → Text
      → p.efi.State
      → Result ((Bytes × ℕ × List IpNet) × Text)
  listens_on args port ip allowed otp id host_name s = do
    on ← listen_on p.net args port ip allowed otp
    hostname ← Errors.context (codes "ReadEFI: " ++ host_name) (read_host_name p.efi id host_name s)
    ok (on, hostname)

  -- Over a variable store, when `Main` returns without an error, a commit was signalled while a
  -- server listened on what the command line says and did not die, the server has a unique device
  -- secret, the operator's line was read without an error, and the key variable holds, in its PEM
  -- form, the host key that this secret determines.
  pub main-IsPersisted :
      (args : List Text) (port : ℤ) (ip : Text) (allowed : List Text) (otp : Text) (id : p.efi.Guid)
      (key_name host_name : Text) (session : Session p) (s : p.efi.State) {nvram : p.efi.State}
      → main p args port ip allowed otp id key_name host_name session s ≡ some (ok tt, nvram)
      → (uds : Bytes) × IsConfirmed
          (listens_on args port ip allowed otp id host_name s)
          otp
          session
          s
          uds
        × IsPersisted id key_name uds nvram
  unfolding main
  main-IsPersisted args port ip allowed otp id key_name host_name session s h =
      listening-IsPersisted otp id key_name session s _ h
