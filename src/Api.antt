-- ===== src/Api.antt =====
-- internal/api/api.go: the requests and the response of the exchanges, and what both ends of them
-- share. The server is in Api/Server.antt and Api/Handler.antt, the client in Api/Client.antt.
pub mod Server
pub mod Handler
pub mod Client
pub mod Access
pub mod Handling
pub mod Commit
pub mod Keeps
pub mod Invariant
pub mod Frame
pub mod Exchange
pub mod Answer
pub mod Keys
pub mod Response
pub mod Lifecycle
pub mod Provisioning
pub mod Refinement
use stprov.Prelude.{
  ℕ, Bool, Option, none, [], ◌∷◌, ◌++◌, Text, Bytes, codes, is_empty, if◌then◌else◌, Error, msg,
  Result, ok, err, ◌≡◌,
}
use stprov.Prelude.Int.{ℤ}
use stprov.Prelude.Errors
use stprov.Prelude.Errors.{◌>>=◌, ◌>>◌, fail_if}
use stprov.Prelude.Exec
use stprov.Prelude.Exec.{Exec}
use stprov.Crypto.{Crypto}
use stprov.Ssh.{fingerprint, public_key}
use stprov.Secrets.{new_entropy, identity, authentication, ssh_host_key, hex_encode}

abbrev pub protocol : Text
protocol = codes "stprov/v0.0.1"

abbrev pub endpoint_add_data : Text
endpoint_add_data = codes "add-data"

abbrev pub endpoint_add_secure_boot : Text
endpoint_add_secure_boot = codes "add-secure-boot"

abbrev pub endpoint_commit : Text
endpoint_commit = codes "commit"

abbrev pub basic_auth_user : Text
basic_auth_user = codes "example-user"

pub record AddDataRequest : Type 0 where
  pub entropy : Bytes
  pub timestamp : ℤ

pub record AddSecureBootRequest : Type 0 where
  pub pk : Bytes
  pub kek : Bytes
  pub db : Bytes
  pub dbx : Bytes
  pub reboot_into_uefi_menu : Bool

pub record CommitResponse : Type 0 where
  pub public_key : Text
  pub fingerprint : Text
  pub host_name : Text
  pub authentication : Text
  pub identity : Text

-- encoding/json for the three types
pub record Json : Type 0 where
  pub marshal_add_data : AddDataRequest → Result Bytes
  pub unmarshal_add_data : Bytes → Result AddDataRequest
  pub marshal_add_secure_boot : AddSecureBootRequest → Result Bytes
  pub unmarshal_add_secure_boot : Bytes → Result AddSecureBootRequest
  pub marshal_commit : CommitResponse → Result Bytes
  pub unmarshal_commit : Bytes → Result CommitResponse

-- What json.Marshal writes of a request or of the response, json.Unmarshal reads back.
pub record IsJson (json : Json) : Type 0 where
  pub add_data :
      (r : AddDataRequest) {b : Bytes}
      → json.marshal_add_data r ≡ ok b
      → json.unmarshal_add_data b ≡ ok r
  pub add_secure_boot :
      (r : AddSecureBootRequest) {b : Bytes}
      → json.marshal_add_secure_boot r ≡ ok b
      → json.unmarshal_add_secure_boot b ≡ ok r
  pub commit :
      (r : CommitResponse) {b : Bytes}
      → json.marshal_commit r ≡ ok b
      → json.unmarshal_commit b ≡ ok r

-- AddSecureBootRequest.Check
unfoldable pub check : AddSecureBootRequest → Result (Unit {0})
check r = do
  fail_if (is_empty r.pk) (msg (codes "invalid request: PK is required"))
  fail_if (is_empty r.kek) (msg (codes "invalid request: KEK is required"))
  fail_if (is_empty r.db) (msg (codes "invalid request: db is required"))

unfoldable pub new_add_secure_boot_request :
    Bytes → Bytes → Bytes → Bytes → Bool → Result AddSecureBootRequest
unfolding check
new_add_secure_boot_request pk kek db dbx reboot = do
  let req : AddSecureBootRequest = record {
    pk = pk;
    kek = kek;
    db = db;
    dbx = dbx;
    reboot_into_uefi_menu = reboot;
  }
  check req
  ok req

module _ (crypto : Crypto) where
  -- `now` is what time.Now().Unix() returns.
  unfoldable pub new_add_data_request : ℤ → Exec crypto.Reader AddDataRequest
  new_add_data_request now =
      Exec.◌>>=◌ (Exec.context (codes "api") (new_entropy crypto))
        λ entropy. Exec.pure (record { entropy = entropy; timestamp = now })

  unfoldable pub new_commit_response : Bytes → Text → Result CommitResponse
  new_commit_response uds hostname = do
    hk ← Errors.context (codes "ssh") (ssh_host_key crypto uds)
    fpr ← Errors.context (codes "ssh") (fingerprint crypto hk)
    pk ← Errors.context (codes "ssh") (public_key crypto hk)
    id ← Errors.context (codes "identity") (identity crypto uds)
    auth ← Errors.context (codes "authentication") (authentication crypto uds)
    ok (record {
      public_key = pk;
      fingerprint = fpr;
      host_name = hostname;
      authentication = hex_encode auth;
      identity = hex_encode id;
    })
