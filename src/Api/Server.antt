-- ===== src/Api/Server.antt =====
-- internal/api/server.go: the state of the server, its creation and its table of handlers.
use stprov.Prelude.{
  ℕ, Bool, ◌||◌, Option, none, List, ◌++◌, Text, Bytes, codes, replicate, decimal, text_eq, Error,
  Result, ok,
}
use stprov.Prelude.Int.{ℤ, pos}
use stprov.Prelude.Errors.{context, ◌>>=◌}
use stprov.Net.{Net, IpNet}
use stprov.Crypto.{Crypto}
use stprov.Efi.{Efi}
use stprov.Secrets.{entropy_bytes, new_one_time_password, tls_certificate, basic_auth_password}
use stprov.Api.{Json}

pub record ServerConfig : Type 0 where
  pub secret : Text
  pub remote_ip : Bytes
  pub remote_port : ℕ
  pub local_cidr : List IpNet
  pub host_name : Text
  pub deadline : ℕ
  pub timeout : ℕ

-- `commit` counts the values that were sent on the channel of that name.
pub record Server (crypto : Crypto) : Type 0 where
  pub config : ServerConfig
  pub open config use *
  pub addr : Text
  pub certificate : crypto.KeyPair
  pub entropy : Bytes
  pub timestamp : ℤ
  pub uds : Option Bytes
  pub basic_auth_password : Text
  pub commit : ℕ

unfoldable pub new_server : (crypto : Crypto) → Net → ServerConfig → Result (Server crypto)
new_server crypto net cfg = do
  otp ← context (codes "derive one-time password") (new_one_time_password crypto cfg.secret)
  crt ← context (codes "derive tls certificate") (tls_certificate crypto otp)
  password ← context (codes "derive basic auth password") (basic_auth_password crypto otp)
  ok (record {
    config = cfg;
    addr = net.ip_string cfg.remote_ip ++ codes ":" ++ decimal cfg.remote_port;
    certificate = crt;
    entropy = replicate entropy_bytes 0;
    timestamp = pos 0;
    uds = none;
    basic_auth_password = password;
    commit = 0;
  })

abbrev pub method_get : Text
method_get = codes "GET"

abbrev pub method_post : Text
method_post = codes "POST"

unfoldable pub check_http_method : Text → Bool
check_http_method m = text_eq m method_get || text_eq m method_post

-- The libraries and the platform that the handlers run on. `split_host_port` is the host of
-- net.SplitHostPort.
pub record Platform : Type 1 where
  pub crypto : Crypto
  pub efi : Efi
  pub net : Net
  pub json : Json
  pub split_host_port : Text → Result Text

-- What a handler does to its http.ResponseWriter.
pub data Event : Type 0 where
  header : Text → Text → Event
  http_error : Text → ℕ → Event
  write : Bytes → Event

-- http.Request: `basic_auth` is what BasicAuth returns, `body` what io.ReadAll returns.
pub record Request : Type 0 where
  pub method : Text
  pub remote_addr : Text
  pub basic_auth : Option (Text × Text)
  pub body : Result Bytes

-- What a handler reads and changes: the server, the EFI variables, crypto/rand and the response so
-- far. `write_error` is the error that Write returns, if the connection is broken.
pub record World (p : Platform) : Type 0 where
  pub server : Server p.crypto
  pub nvram : p.efi.State
  pub rand : p.crypto.Reader
  pub response : List Event
  pub write_error : Option Error
