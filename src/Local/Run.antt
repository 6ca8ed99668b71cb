-- ===== src/Local/Run.antt =====
-- subcmd/local/run/run.go: `stprov local run`. Files and what is at the other end of the connection
-- are parameters; the result is what is printed on stdout.
pub mod Checks
pub mod Requests
pub mod Printed
use stprov.Prelude.{
  ℕ, Bool, true, false, ◌&&◌, ◌||◌, Option, none, some, List, [], ◌∷◌, ◌++◌, Text, Bytes, codes,
  is_empty, join, not, if◌then◌else◌, Error, msg, Result, ok, err,
}
use stprov.Prelude.Int.{ℤ, int_decimal, valid_port}
use stprov.Prelude.Errors
use stprov.Prelude.Exec.{Exec, pure, raise, lift, context, ◌>>=◌, ◌>>◌}
use stprov.Net.{Net}
use stprov.Crypto.{Crypto}
use stprov.Api.{CommitResponse}
use stprov.Api.Client.{
  Client, ClientConfig, Transport, new_client, add_data, add_secure_boot_keys, commit,
}

-- os.ReadFile: `missing` is an error for which os.IsNotExist holds.
pub data FileRead : Type 0 where
  content : Bytes → FileRead
  missing : FileRead
  failed : Error → FileRead

-- The command line.
pub record Options : Type 0 where
  pub args : List Text
  pub port : ℤ
  pub ip : Text
  pub otp : Text
  pub pk_file : Text
  pub kek_file : Text
  pub db_file : Text
  pub dbx_file : Text
  pub no_uefi_menu_reboot : Bool

abbrev optional_of : FileRead → Result (Option Bytes)
optional_of (content b) = ok (some b)
optional_of missing = ok none
optional_of (failed e) = err e

abbrev pub is_some {ℓ} : {A : Type ℓ} → Option A → Bool
is_some none = false
is_some (some a) = true

-- A nil slice is an empty one where its bytes are used.
abbrev pub bytes_of : Option Bytes → Bytes
bytes_of none = []
bytes_of (some b) = b

-- The Secure Boot files, nil where there is none.
pub record KeyFiles : Type 0 where
  pub pk : Option Bytes
  pub kek : Option Bytes
  pub db : Option Bytes
  pub dbx : Option Bytes

unfoldable pub have_sb_opts : KeyFiles → Bool
have_sb_opts k = is_some k.pk || is_some k.kek || is_some k.db || is_some k.dbx

unfoldable pub ok_sb_opts : KeyFiles → Bool
ok_sb_opts k = is_some k.pk && is_some k.kek && is_some k.db

module _ (read_file : Text → FileRead) where
  -- `readOptionalFile`
  unfoldable pub read_optional_file : Text → Result (Option Bytes)
  read_optional_file filename = optional_of (read_file filename)

  unfoldable pub read_key_files : Options → Result KeyFiles
  unfolding read_optional_file
  read_key_files o =
      Errors.◌>>=◌ (Errors.context (codes "invalid Secure Boot PK") (read_optional_file o.pk_file))
        λ pk.
          Errors.◌>>=◌
            (Errors.context (codes "invalid Secure Boot KEK") (read_optional_file o.kek_file))
            λ kek.
              Errors.◌>>=◌
                (Errors.context (codes "invalid Secure Boot db") (read_optional_file o.db_file))
                λ db.
                  Errors.◌>>=◌
                    (Errors.context (codes "invalid Secure Boot dbx")
                      (read_optional_file o.dbx_file))
                    λ dbx. ok (record { pk = pk; kek = kek; db = db; dbx = dbx })

module _ (net : Net) where
  unfoldable pub connection_of : Options → Result (Bytes × ℕ)
  connection_of o =
      Errors.◌>>◌
        (Errors.fail_if (not (is_empty o.args))
          (msg (codes "trailing arguments: [" ++ join o.args (codes " ") ++ codes "]")))
        (Errors.◌>>◌
          (Errors.fail_if (is_empty o.ip) (msg (codes "ip address is a required option")))
          (Errors.◌>>◌
            (Errors.fail_if (is_empty o.otp) (msg (codes "one-time password is a required option")))
            (Errors.◌>>=◌
              (Errors.or_error (msg (codes "malformed ip address: " ++ o.ip)) (net.parse_ip o.ip))
              λ ip.
                Errors.◌>>=◌
                  (Errors.or_error
                    (msg
                      (codes "invalid port: " ++ int_decimal o.port ++ codes " not in [0, 65535]"))
                    (valid_port o.port))
                  λ port. ok (ip, port))))

module _ {Remote : Type 0} (crypto : Crypto) (t : Transport Remote) (now : ℤ) where
  -- The exchanges with stprov remote.
  unfoldable pub exchanges : Client crypto → Bool → Exec (crypto.Reader × Remote) CommitResponse
  exchanges cli have_sb = do
    context (codes "add data") (add_data crypto t cli now)
    if have_sb
        then context (codes "add Secure Boot keys") (add_secure_boot_keys crypto t cli)
        else pure tt
    context (codes "commit") (commit crypto t cli)

module _ (net : Net) (read_file : Text → FileRead) where
  -- Everything that is checked before the client is made: the client's configuration, and whether
  -- there are Secure Boot keys.
  unfoldable pub client_config : Options → Result (ClientConfig × Bool)
  unfolding have_sb_opts ok_sb_opts
  client_config o = Errors.◌>>=◌ (connection_of net o) λ at.
      Errors.◌>>=◌ (read_key_files read_file o) λ k.
        Errors.◌>>◌
          (Errors.fail_if (have_sb_opts k && not (ok_sb_opts k))
            (msg (codes "invalid Secure Boot options: PK, KEK, and db are required")))
          (ok (
            record {
              secret = o.otp;
              remote_ip = at.0;
              remote_port = at.1;
              pk = bytes_of k.pk;
              kek = bytes_of k.kek;
              db = bytes_of k.db;
              dbx = bytes_of k.dbx;
              reboot_into_uefi_menu = not o.no_uefi_menu_reboot;
            },
            have_sb_opts k,
          ))

  module _ {Remote : Type 0} (crypto : Crypto) (t : Transport Remote) (now : ℤ) where
    unfoldable pub main : Options → Exec (crypto.Reader × Remote) (List Text)
    main o = do
      (cfg, have_sb) ← lift (client_config o)
      cli ← context (codes "new client") (lift (new_client crypto net cfg))
      cr ← exchanges crypto t now cli have_sb
      pure (
          (codes "publickey=" ++ cr.public_key)
          ∷ (codes "fingerprint=" ++ cr.fingerprint)
          ∷ (codes "hostname=" ++ cr.host_name)
          ∷ (codes "ip=" ++ o.ip)
          ∷ [])
