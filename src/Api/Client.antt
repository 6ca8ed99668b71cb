-- ===== src/Api/Client.antt =====
-- internal/api/client.go: the client of `stprov local`. The state is crypto/rand's reader and what
-- is at the other end of the connection.
use stprov.Prelude.{
  ℕ, Bool, [], ◌++◌, Text, Bytes, codes, decimal, ◌==◌, not, if◌then◌else◌, msg, Result, ok,
}
use stprov.Prelude.Int.{ℤ}
use stprov.Prelude.Errors
use stprov.Prelude.Exec.{Exec, pure, raise, lift, context, ◌>>=◌, ◌>>◌}
use stprov.Net.{Net}
use stprov.Crypto.{Crypto}
use stprov.Secrets.{new_one_time_password, x509_certificate, basic_auth_password}
use stprov.Api.{
  Json, AddDataRequest, CommitResponse, protocol, endpoint_add_data, endpoint_add_secure_boot,
  endpoint_commit, basic_auth_user, new_add_data_request, new_add_secure_boot_request,
}
use stprov.Api.Server.{method_get, method_post}
use stprov.Api.Handler.{status_ok, status_text}

pub record ClientConfig : Type 0 where
  pub secret : Text
  pub remote_ip : Bytes
  pub remote_port : ℕ
  pub pk : Bytes
  pub kek : Bytes
  pub db : Bytes
  pub dbx : Bytes
  pub reboot_into_uefi_menu : Bool

-- `root` is the only certificate of the pool that the server is checked against.
pub record Client (crypto : Crypto) : Type 0 where
  pub config : ClientConfig
  pub open config use *
  pub root : crypto.Certificate
  pub basic_auth_password : Text
  pub server_url : Text

-- http.Request, as the client builds it
pub record Outgoing : Type 0 where
  pub method : Text
  pub url : Text
  pub user : Text
  pub password : Text
  pub body : Bytes

-- http.Response: `body` is what io.ReadAll returns
pub record Response : Type 0 where
  pub status : ℕ
  pub body : Result Bytes

unfoldable pub new_client : (crypto : Crypto) → Net → ClientConfig → Result (Client crypto)
new_client crypto net cfg =
    Errors.◌>>=◌
      (Errors.context (codes "derive one-time password") (new_one_time_password crypto cfg.secret))
      λ otp.
        Errors.◌>>=◌
          (Errors.context (codes "derive x509 certificate") (x509_certificate crypto otp))
          λ crt.
            Errors.◌>>=◌
              (Errors.context (codes "derive basic auth password") (basic_auth_password crypto otp))
              λ password. ok (record {
                config = cfg;
                root = crt;
                basic_auth_password = password;
                server_url =
                    codes "https://"
                    ++ net.ip_string cfg.remote_ip
                    ++ codes ":"
                    ++ decimal cfg.remote_port
                    ++ codes "/"
                    ++ protocol
                    ++ codes "/";
              })

-- What the client goes by: encoding/json, http.NewRequest's check of the URL, and http.Client.Do.
pub record Transport (Remote : Type 0) : Type 0 where
  pub json : Json
  pub new_request : Text → Text → Result (Unit {0})
  pub perform : Outgoing → Exec Remote Response

module _ {Remote : Type 0} (crypto : Crypto) (t : Transport Remote) where
  -- A call of the transport, which leaves crypto/rand alone.
  unfoldable pub send : Outgoing → Exec (crypto.Reader × Remote) Response
  send o s = ((t.perform o s.1).0, (s.0, (t.perform o s.1).1))

  -- `doGet` and `doPost` once the request is built
  unfoldable pub do_request : Outgoing → Exec (crypto.Reader × Remote) Bytes
  unfolding send status_text
  do_request o = do
    rsp ← context (codes "do request") (send o)
    if not (rsp.status == status_ok) then raise (msg (status_text rsp.status)) else lift rsp.body

  unfoldable pub do_get : Client crypto → Text → Exec (crypto.Reader × Remote) Bytes
  do_get c url = do
    context (codes "new request") (lift (t.new_request method_get url))
    do_request (record {
      method = method_get;
      url = url;
      user = basic_auth_user;
      password = c.basic_auth_password;
      body = [];
    })

  -- The argument is what json.Marshal returns.
  unfoldable pub do_post : Client crypto → Text → Result Bytes → Exec (crypto.Reader × Remote) Bytes
  do_post c url marshalled = do
    b ← context (codes "marshal") (lift marshalled)
    context (codes "new request") (lift (t.new_request method_post url))
    do_request (record {
      method = method_post;
      url = url;
      user = basic_auth_user;
      password = c.basic_auth_password;
      body = b;
    })

  -- An action on crypto/rand alone.
  abbrev pub locally : {A : Type 0} → Exec crypto.Reader A → Exec (crypto.Reader × Remote) A
  locally m s = ((m s.0).0, ((m s.0).1, s.1))

  -- `Client.AddData`; `now` is the time in seconds
  unfoldable pub add_data : Client crypto → ℤ → Exec (crypto.Reader × Remote) AddDataRequest
  add_data c now = do
    r ← context (codes "create data") (locally (new_add_data_request crypto now))
    context (codes "post data")
        (do_post c (c.server_url ++ endpoint_add_data) (t.json.marshal_add_data r))
    pure r

  unfoldable pub add_secure_boot_keys : Client crypto → Exec (crypto.Reader × Remote) (Unit {0})
  add_secure_boot_keys c = do
    req ←
        context (codes "create secure boot request")
          (lift (new_add_secure_boot_request c.pk c.kek c.db c.dbx c.reboot_into_uefi_menu))
    context (codes "post secure boot keys")
        (do_post c (c.server_url ++ endpoint_add_secure_boot) (t.json.marshal_add_secure_boot req))
    pure tt

  unfoldable pub commit : Client crypto → Exec (crypto.Reader × Remote) CommitResponse
  commit c = do
    b ← context (codes "send commit") (do_get c (c.server_url ++ endpoint_commit))
    context (codes "unmarshal") (lift (t.json.unmarshal_commit b))
