-- ===== src/Remote/Run.antt =====
-- subcmd/remote/run/run.go: `stprov remote run`. The requests that arrive until the server has shut
-- down, whether it died, and the operator's answer are parameters.
pub mod AllowedNets
pub mod Returns
pub mod Persists
use stprov.Prelude.{
  ℕ, Bool, true, false, Option, none, some, List, [], ◌∷◌, ◌++◌, Text, Bytes, codes, is_empty,
  contains, join, ◌==◌, not, if◌then◌else◌, Error, msg, Result, ok, err,
}
use stprov.Prelude.Int.{ℤ, int_decimal, valid_port}
use stprov.Prelude.Errors
use stprov.Prelude.Errors.{◌>>=◌, ◌>>◌}
use stprov.Prelude.Exec
use stprov.Prelude.Exec.{Exec}
use stprov.Net.{Net, IpNet, to4, to16}
use stprov.Ssh.{write_efi}
use stprov.Secrets.{ssh_host_key}
use stprov.St.{read_host_name}
use stprov.Api.Server.{Server, ServerConfig, Platform, Request, World, new_server}
use stprov.Api.Invariant.{serve_all}

abbrev pub is_some : Option Bytes → Bool
is_some none = false
is_some (some b) = true

abbrev with_length : Text → Option Bytes → Result Text
with_length addr none = err (msg (codes "malformed address: " ++ addr))
with_length addr (some ip) =
    if is_some (to4 ip)
    then ok (addr ++ codes "/32")
    else if is_some (to16 ip)
    then ok (addr ++ codes "/128")
    else ok addr

module _ (net : Net) where
  -- One round of the loop of `parseAllowedNets`.
  unfoldable pub parse_allowed_net : Text → Result IpNet
  unfolding contains
  parse_allowed_net addr = do
    full ← if contains addr (codes "/") then ok addr else with_length addr (net.parse_ip addr)
    cidr ← Errors.instead (msg (codes "malformed address: " ++ full)) (net.parse_cidr full)
    ok cidr.1

  unfoldable pub parse_allowed_nets : List Text → Result (List IpNet)
  unfolding parse_allowed_net
  parse_allowed_nets [] = ok []
  parse_allowed_nets (addr ∷ addresses) = do
    n ← parse_allowed_net addr
    ns ← parse_allowed_nets addresses
    ok (n ∷ ns)

  -- The checks of the command line: the address, the port and the allowed networks.
  unfoldable pub listen_on :
      List Text → ℤ → Text → List Text → Text → Result (Bytes × ℕ × List IpNet)
  listen_on args opt_port opt_ip allow_hosts otp = do
    Errors.fail_if (not (is_empty args))
        (msg (codes "trailing arguments: [" ++ join args (codes " ") ++ codes "]"))
    Errors.fail_if (is_empty otp) (msg (codes "otp: one-time password is a required option"))
    port ←
        Errors.or_error
          (msg (codes "port: invalid: " ++ int_decimal opt_port ++ codes " not in [1, 65535]"))
          (valid_port opt_port)
    ip ← Errors.or_error (msg (codes "ip: malformed ip address: " ++ opt_ip)) (net.parse_ip opt_ip)
    nets ← parse_allowed_nets allow_hosts
    ok (ip, port, nets)

-- What happens while the server listens: crypto/rand, the requests up to the end of the shutdown,
-- the error if the server dies first, the operator's line, and the error of every response's write.
pub record Session (p : Platform) : Type 0 where
  pub rand : p.crypto.Reader
  pub arrivals : List (Text × Request)
  pub died : Option Error
  pub confirmation : Result Text
  pub write_error : Option Error

module _ (p : Platform) where
  abbrev pub started : Server p.crypto → Session p → p.efi.State → World p
  started srv session nvram = record {
    server = srv;
    nvram = nvram;
    rand = session.rand;
    response = [];
    write_error = session.write_error;
  }

  abbrev ended : Option Error → World p → Option (Result (World p))
  ended (some e) w = some (err (Error.wrap (codes "server died") e))
  ended none w = if w.server.commit == 0 then none else some (ok w)

  -- `Server.Run`: none as long as no commit is signalled, since the server waits for it
  unfoldable pub run_server : Session p → World p → Option (Result (World p))
  run_server session w = ended session.died (serve_all p session.arrivals w)

  abbrev confirmed : Result Text → World p → Result (Option Bytes)
  confirmed (err e) w = err (Error.wrap (codes "read confirmation") e)
  confirmed (ok line) w = ok w.server.uds

  abbrev with_nvram :
      Option (Result (World p))
      → Result Text
      → p.efi.State
      → Option (Result (Option Bytes) × p.efi.State)
  with_nvram none line nvram = none
  with_nvram (some (err e)) line nvram = some (err (Error.wrap (codes "run server") e), nvram)
  with_nvram (some (ok w)) line nvram = some (confirmed line w, w.nvram)

  -- `listen`, with the time limits in seconds. If the server dies, what the requests had written to
  -- the EFI variables stays written.
  abbrev pub config_for : Text → List IpNet → Bytes → ℕ → Text → ServerConfig
  config_for otp nets ip port hostname = record {
    secret = otp;
    remote_ip = ip;
    remote_port = port;
    local_cidr = nets;
    host_name = hostname;
    deadline = 15;
    timeout = 60;
  }

  abbrev listened :
      Result (Server p.crypto)
      → Session p
      → p.efi.State
      → Option (Result (Option Bytes) × p.efi.State)
  listened (err e) session nvram = some (err (Error.wrap (codes "new server") e), nvram)
  listened (ok srv) session nvram =
      let w = serve_all p session.arrivals (started srv session nvram) in
      with_nvram (run_server session (started srv session nvram)) session.confirmation w.nvram

  unfoldable pub listen :
      Text
      → List IpNet
      → Bytes
      → ℕ
      → Text
      → Session p
      → p.efi.State
      → Option (Result (Option Bytes) × p.efi.State)
  unfolding run_server
  listen otp nets ip port hostname session nvram =
      listened (new_server p.crypto p.net (config_for otp nets ip port hostname)) session nvram

  -- `writeHostKey`
  unfoldable pub write_host_key : Bytes → p.efi.Guid → Text → Exec p.efi.State (Unit {0})
  write_host_key uds guid name =
      Exec.◌>>=◌ (Exec.lift (ssh_host_key p.crypto uds)) λ hk. write_efi p.crypto p.efi hk guid name

  -- `Main` once `listen` has returned. A nil secret would be dereferenced.
  abbrev pub key_written :
      p.efi.Guid → Text → Result (Option Bytes) × p.efi.State → Result (Unit {0}) × p.efi.State
  key_written guid name (err e, nvram) = (err (Error.wrap (codes "listen") e), nvram)
  key_written guid name (ok none, nvram) =
      (err (msg (codes "panic: invalid memory address or nil pointer dereference")), nvram)
  key_written guid name (ok (some uds), nvram) =
      Exec.context (codes "persist host key") (write_host_key uds guid name) nvram

  abbrev after_listen :
      p.efi.Guid
      → Text
      → Option (Result (Option Bytes) × p.efi.State)
      → Option (Result (Unit {0}) × p.efi.State)
  after_listen guid name none = none
  after_listen guid name (some r) = some (key_written guid name r)

  abbrev pub listening :
      Text
      → p.efi.Guid
      → Text
      → Session p
      → p.efi.State
      → Result ((Bytes × ℕ × List IpNet) × Text)
      → Option (Result (Unit {0}) × p.efi.State)
  listening otp guid key_name session nvram (err e) = some (err e, nvram)
  listening otp guid key_name session nvram (ok ((ip, port, nets), hostname)) =
      after_listen guid key_name (listen otp nets ip port hostname session nvram)

  -- `Main`: none if the server still waits for a commit
  unfoldable pub main :
      List Text
      → ℤ
      → Text
      → List Text
      → Text
      → p.efi.Guid
      → Text
      → Text
      → Session p
      → p.efi.State
      → Option (Result (Unit {0}) × p.efi.State)
  unfolding listen
  main args opt_port opt_ip allow_hosts otp guid key_name host_name session nvram =
      listening otp guid key_name session nvram (do
        on ← listen_on p.net args opt_port opt_ip allow_hosts otp
        hostname ←
            Errors.context (codes "ReadEFI: " ++ host_name)
              (read_host_name p.efi guid host_name nvram)
        ok (on, hostname))
