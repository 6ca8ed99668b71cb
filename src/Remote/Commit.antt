-- ===== src/Remote/Commit.antt =====
-- `commitConfig` and `checkURL` (subcmd/remote/remote.go): the OS package URLs are checked, and the
-- host name and the host configuration are persisted.
pub mod Persists
use stprov.Prelude.{
  ℕ, Bool, true, false, Option, none, some, List, [], ◌∷◌, ◌++◌, Text, codes, join, is_empty, ◌==◌,
  not, if◌then◌else◌, Error, msg, Result, ok, err,
}
use stprov.Prelude.Errors
use stprov.Prelude.Exec.{Exec, pure, lift, reads, context, ◌>>=◌, ◌>>◌}
use stprov.Efi.{Efi}
use stprov.Options.{construct_url}
use stprov.St.{Host, write_host_name, write_host_config, host_config_efi_variable_name}
use stprov.Network.Netlink.{Netlink}
use stprov.Remote.Config.{HostConfig, Stboot}

abbrev pub efi_key_name : Text
efi_key_name = codes "STHostKey"

abbrev pub efi_host_name : Text
efi_host_name = codes "STHostName"

abbrev pub trust_policy_root_file : Text
trust_policy_root_file = codes "/etc/trust_policy/tls_roots.pem"

-- http.Response, with the fields that are read
pub record HeadResponse : Type 0 where
  pub status_code : ℕ
  pub status : Text

-- stboot's ReadOptionalCertsFile at the time of the call, and the HTTPClient of its NewHTTPClient;
-- http.NewRequest of a HEAD request, and the client's Do. `Net` is what is at the other end.
pub record Heads : Type 1 where
  pub Certs : Type 0
  pub Client : Type 0
  pub Net : Type 0
  pub read_optional_certs_file : Text → Result Certs
  pub new_http_client : Certs → Bool → Client
  pub new_request : Text → Result (Unit {0})
  pub perform : Client → Text → Exec Net HeadResponse
  -- the verb %q
  pub quoted : Text → Text

module _ (heads : Heads) where
  open heads use {
    Client, Net, read_optional_certs_file, new_http_client, new_request, perform, quoted,
  }

  -- `NewClient` of internal/network/client.go
  unfoldable pub new_client : Text → Result Client
  new_client root_file =
      Errors.◌>>=◌ (read_optional_certs_file root_file) λ certs. ok (new_http_client certs false)

  abbrev is_status_ok : Text → HeadResponse → Result (Unit {0})
  is_status_ok url r =
      if r.status_code == 200
      then ok tt
      else err (
          msg (
            codes "HEAD request on "
            ++ quoted url
            ++ codes " failed, returned status: "
            ++ quoted r.status))

  unfoldable pub check_url : Client → Text → Exec Net (Unit {0})
  check_url client url = do
    lift (new_request url)
    resp ← context (codes "HEAD request on " ++ quoted url ++ codes " failed") (perform client url)
    lift (is_status_ok url resp)

  -- A failed check is an error, unless it is forced.
  abbrev pub unless_forced : Bool → Result (Unit {0}) → Result (Unit {0})
  unless_forced force (ok u) = ok tt
  unless_forced true (err e) = ok tt
  unless_forced false (err e) = err (Error.wrap (codes "HEAD request failed") e)

  -- The loop over the URLs.
  unfoldable pub checked_urls : Client → Bool → Text → Text → List Text → Exec Net (List Text)
  unfolding check_url
  checked_urls client force user password [] = pure []
  checked_urls client force user password (url ∷ urls) = do
    u ← lift (construct_url url user password)
    λ s. (unless_forced force (check_url client u s).0, (check_url client u s).1)
    us ← checked_urls client force user password urls
    pure (u ∷ us)

module _ (heads : Heads) (efi : Efi) (host : Host) where
  abbrev Both : Type 0
  Both = heads.Net × efi.State

  abbrev on_net : {B : Type 0} → Exec heads.Net B → Exec Both B
  on_net m s = ((m s.0).0, ((m s.0).1, s.1))

  abbrev on_efi : {B : Type 0} → Exec efi.State B → Exec Both B
  on_efi m s = ((m s.1).0, (s.0, (m s.1).1))

  -- What `commitConfig` writes, once the URLs are checked.
  unfoldable pub persist : Text → host.Config → Exec efi.State (Unit {0})
  persist host_name cfg = do
    var ← context (codes "parse efi UUID") (lift (host_config_efi_variable_name efi host))
    context (codes "persist host name") (write_host_name efi host_name var.1 efi_host_name)
    context (codes "persist host config") (write_host_config efi host cfg)

  -- The configuration is a function of the OS package pointer, which is set here.
  unfoldable pub commit_config :
      Text → (Text → host.Config) → List Text → Text → Text → Bool → Exec Both (Unit {0})
  unfolding persist checked_urls
  commit_config host_name config urls user password force = do
    lift (Errors.fail_if (is_empty host_name) (msg (codes "host name is a required option")))
    client ← context (codes "configure tls client") (lift (new_client heads trust_policy_root_file))
    us ← on_net (checked_urls heads client force user password urls)
    on_efi (persist host_name (config (join us (codes ","))))
