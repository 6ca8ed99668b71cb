-- ===== src/Examples/Together.antt =====
-- `stprov local run` against `stprov remote run`: a whole session.
use stprov.Prelude.{
  ℕ, true, false, Option, none, some, List, [], ◌∷◌, ◌++◌, Text, Bytes, codes, drop, ◌==◌, text_eq,
  if◌then◌else◌, Result, ok, err, ◌⊎◌, ◌≡◌, refl, arith,
}
use stprov.Prelude.Int.{pos}
use stprov.Api.Server.{Request, World}
use stprov.Api.Client.{ClientConfig, Client, new_client}
use stprov.Api.Exchange.{Link, connection}
use stprov.Local.Run as Local
use stprov.Local.Run.{Options, FileRead, content, missing}
use stprov.Remote.Run as Remote
use stprov.Remote.Run.{Session, started}
use stprov.Cmd.Exits.{command, Succeeds, Fails, local-exits}
use stprov.Together.Recorded.{Recorded, recorded}
use stprov.Together.Keys.{IsRouted, AreRouted, IsWritten, main-IsWritten}
use stprov.Together.Told as Told
use stprov.Together.Told.{IsKeyOf, main-IsKeyOf}
use stprov.Examples.Firmware.{Nvram, firmware-IsStore}
use stprov.Examples.Machine.{machine, library, lab, lab_net, encoding-IsJson}
use stprov.Examples.Boot.{setup}
use stprov.Examples.Session.{
  world, lab_client_config, lab_server, lab_client, new_client-lab_client_config,
  new_server-lab_config,
}
use stprov.Examples.Exchange.{cable, lab_session, guid, named, nvram_of}
use stprov.Examples.Client.{options, no_files}

-- The part of a text from the first slash on.
abbrev from_slash : Text → Text
from_slash [] = []
from_slash (c ∷ s) = let rest = from_slash s in if c == b'/' then c ∷ s else rest

-- A wire that carries every URL to its path.
abbrev wire : Link
wire = record cable { url_path = λ url. from_slash (drop 8 url) }

abbrev exchanged : Result (List Text) × (Bytes × Recorded machine wire)
exchanged =
    Local.main lab no_files library (recorded machine wire) (pos 1700000000) options
      (codes "entropy", (started machine lab_server lab_session named, []))

abbrev lines : List Text
lines = elim exchanged.0 [ ok shown ↦ shown | err e ↦ [] ]

abbrev session : Session machine
session = record lab_session { arrivals = exchanged.1.1.1 }

abbrev outcome : Option (Result (Unit {0}) × Nvram)
outcome =
    Remote.main machine [] (pos 2009) (codes "10.0.0.7") (codes "10.0.0.0/24" ∷ []) (codes "sesame")
      guid (codes "STHostKey") (codes "STHostName") session named

exchanged-eq_ok : exchanged.0 ≡ ok lines
unfolding Local.main stprov.Local.Run.exchanges stprov.Local.Run.client_config
    stprov.Local.Run.connection_of stprov.Local.Run.read_key_files stprov.Api.Client.new_client
    stprov.Api.Client.add_data stprov.Api.new_add_data_request stprov.Api.Client.do_post
    stprov.Api.Client.do_request stprov.Api.Client.commit stprov.Api.Client.do_get
    stprov.Api.Client.send stprov.Secrets.new_entropy stprov.Secrets.new_one_time_password
    stprov.Secrets.x509_certificate stprov.Secrets.basic_auth_password stprov.Secrets.reader
    stprov.Secrets.key_gen stprov.Secrets.tls_certificate stprov.Api.Handler.serve
    stprov.Api.Handler.serve_http stprov.Api.Handler.verify_method stprov.Api.Handler.verify_network
    stprov.Net.net_contains stprov.Api.Handler.authenticate_user stprov.Secrets.hex_encode
    stprov.Secrets.hex_digit stprov.Api.Handler.finish stprov.Api.Handler.handle_commit
    stprov.Api.Handler.handle_add_data stprov.Api.Handler.add_data_with
    stprov.Secrets.new_unique_device_secret stprov.Secrets.derive stprov.Secrets.identity
    stprov.Secrets.authentication stprov.Api.new_commit_response stprov.Secrets.ssh_host_key
    stprov.Ssh.new_host_key stprov.Ssh.fingerprint stprov.Ssh.public_key stprov.Ssh.public_key_of
    stprov.Ssh.trim_newlines stprov.Ssh.public_of stprov.Prelude.decimal stprov.Prelude.digits_of
exchanged-eq_ok = refl

outcome-eq_ok : outcome ≡ some (ok tt, nvram_of outcome)
unfolding Local.main Remote.main stprov.Remote.Run.listen_on stprov.Remote.Run.parse_allowed_nets
    stprov.Remote.Run.write_host_key stprov.St.read_host_name stprov.St.read_efi
    stprov.Api.Server.new_server stprov.Api.Invariant.serve_all stprov.Ssh.write_efi
    stprov.Ssh.write_pem stprov.Ssh.write stprov.Local.Run.exchanges stprov.Local.Run.client_config
    stprov.Local.Run.connection_of stprov.Local.Run.read_key_files stprov.Api.Client.new_client
    stprov.Api.Client.add_data stprov.Api.new_add_data_request stprov.Api.Client.do_post
    stprov.Api.Client.do_request stprov.Api.Client.commit stprov.Api.Client.do_get
    stprov.Api.Client.send stprov.Secrets.new_entropy stprov.Secrets.new_one_time_password
    stprov.Secrets.x509_certificate stprov.Secrets.basic_auth_password stprov.Secrets.reader
    stprov.Secrets.key_gen stprov.Secrets.tls_certificate stprov.Api.Handler.serve
    stprov.Api.Handler.serve_http stprov.Api.Handler.verify_method stprov.Api.Handler.verify_network
    stprov.Net.net_contains stprov.Api.Handler.authenticate_user stprov.Secrets.hex_encode
    stprov.Secrets.hex_digit stprov.Api.Handler.finish stprov.Api.Handler.handle_commit
    stprov.Api.Handler.handle_add_data stprov.Api.Handler.add_data_with
    stprov.Secrets.new_unique_device_secret stprov.Secrets.derive stprov.Secrets.identity
    stprov.Secrets.authentication stprov.Api.new_commit_response stprov.Secrets.ssh_host_key
    stprov.Ssh.new_host_key stprov.Ssh.fingerprint stprov.Ssh.public_key stprov.Ssh.public_key_of
    stprov.Ssh.trim_newlines stprov.Ssh.public_of stprov.Prelude.decimal stprov.Prelude.digits_of
outcome-eq_ok = refl

wire-IsRouted : Told.IsRouted machine firmware-IsStore wire encoding-IsJson no_files options
unfolding stprov.Local.Run.client_config stprov.Local.Run.connection_of
    stprov.Local.Run.read_key_files
wire-IsRouted cfg c h made =
    let same : lab_client ≡ c = ground (arith, h, new_client-lab_client_config) in rw (← same) refl

main-IsKeyOf_example :
    IsKeyOf machine firmware-IsStore wire encoding-IsJson no_files options
      (codes "lab")
      lines
      guid
      (codes "STHostKey")
      (nvram_of outcome)
unfolding Remote.main Remote.listen_on Remote.parse_allowed_nets stprov.St.read_host_name
    stprov.St.read_efi Local.main new_client Local.exchanges Local.client_config
    stprov.Api.Invariant.serve_all
main-IsKeyOf_example =
    main-IsKeyOf machine firmware-IsStore wire encoding-IsJson no_files options wire-IsRouted
      (pos 1700000000) (codes "entropy") lines [] session [] (pos 2009) (codes "10.0.0.7")
      (codes "10.0.0.0/24" ∷ []) (codes "sesame") guid (codes "STHostKey") (codes "STHostName")
      named (10 ∷ 0 ∷ 0 ∷ 7 ∷ []) 2009 (lab_net ∷ []) (codes "lab") lab_server refl
      new_server-lab_config exchanged-eq_ok refl outcome-eq_ok

-- The files of the keys.
abbrev key_files : Text → FileRead
key_files name =
    if text_eq name (codes "PK")
    then content (1 ∷ [])
    else if text_eq name (codes "KEK")
    then content (2 ∷ [])
    else if text_eq name (codes "db")
    then content (3 ∷ [])
    else missing

abbrev key_options : Options
key_options = record options {
  pk_file = codes "PK";
  kek_file = codes "KEK";
  db_file = codes "db";
  dbx_file = codes "dbx";
  no_uefi_menu_reboot = false;
}

abbrev sent : Result (List Text) × (Bytes × World machine)
sent =
    Local.main lab key_files library (connection machine wire) (pos 1700000000) key_options
      (codes "entropy", world)

abbrev shown : List Text
shown = elim sent.0 [ ok texts ↦ texts | err e ↦ [] ]

sent-eq_ok : sent.0 ≡ ok shown
unfolding Local.main stprov.Local.Run.exchanges stprov.Local.Run.client_config
    stprov.Local.Run.connection_of stprov.Local.Run.read_key_files stprov.Api.Client.new_client
    stprov.Api.Client.add_data stprov.Api.new_add_data_request stprov.Api.Client.do_post
    stprov.Api.Client.do_request stprov.Api.Client.commit stprov.Api.Client.do_get
    stprov.Api.Client.send stprov.Secrets.new_entropy stprov.Secrets.new_one_time_password
    stprov.Secrets.x509_certificate stprov.Secrets.basic_auth_password stprov.Secrets.reader
    stprov.Secrets.key_gen stprov.Secrets.tls_certificate stprov.Api.Handler.serve
    stprov.Api.Handler.serve_http stprov.Api.Handler.verify_method stprov.Api.Handler.verify_network
    stprov.Net.net_contains stprov.Api.Handler.authenticate_user stprov.Secrets.hex_encode
    stprov.Secrets.hex_digit stprov.Api.Handler.finish stprov.Api.Handler.handle_commit
    stprov.Api.Handler.handle_add_data stprov.Api.Handler.add_data_with
    stprov.Secrets.new_unique_device_secret stprov.Secrets.derive stprov.Secrets.identity
    stprov.Secrets.authentication stprov.Api.new_commit_response stprov.Secrets.ssh_host_key
    stprov.Ssh.new_host_key stprov.Ssh.fingerprint stprov.Ssh.public_key stprov.Ssh.public_key_of
    stprov.Ssh.trim_newlines stprov.Ssh.public_of stprov.Prelude.decimal stprov.Prelude.digits_of
    stprov.Api.Client.add_secure_boot_keys stprov.Api.new_add_secure_boot_request stprov.Api.check
    stprov.Api.Handler.handle_add_secure_boot stprov.Sb.provision stprov.Sb.is_setup_mode
    stprov.Sb.efi_read stprov.Sb.setup_mode_of stprov.Sb.efi_authenticated_write
    stprov.Sb.request_reboot_into_uefi_menu
sent-eq_ok = refl

abbrev key_config : ClientConfig
key_config = record lab_client_config {
  pk = 1 ∷ [];
  kek = 2 ∷ [];
  db = 3 ∷ [];
  reboot_into_uefi_menu = true;
}

abbrev key_client : Client library
key_client = record lab_client { config = key_config }

new_client-key_config : new_client library lab key_config ≡ ok key_client
unfolding new_client stprov.Prelude.decimal stprov.Prelude.digits_of stprov.Secrets.derive
    stprov.Secrets.reader stprov.Secrets.basic_auth_password stprov.Secrets.new_one_time_password
    stprov.Secrets.key_gen stprov.Secrets.x509_certificate
new_client-key_config = refl

key_client-IsRouted : IsRouted machine wire key_client
key_client-IsRouted = record { add_data = refl; add_secure_boot = refl; commit = refl }

wire-AreRouted : AreRouted machine wire encoding-IsJson key_files key_options
unfolding stprov.Local.Run.client_config stprov.Local.Run.connection_of
    stprov.Local.Run.read_key_files
wire-AreRouted cfg c h made =
    let same : key_client ≡ c = ground (arith, h, new_client-key_config) in
    rw (← same) key_client-IsRouted

main-IsWritten_example :
    IsWritten machine wire encoding-IsJson key_files key_options setup sent.1.1.nvram
main-IsWritten_example =
    main-IsWritten machine wire encoding-IsJson key_files key_options wire-AreRouted
      (pos 1700000000) (codes "entropy") world shown sent-eq_ok

-- What package flag parses the arguments to, on every command line.
abbrev parsed : List Text → Text × Options
parsed args = (codes "run", key_options)

abbrev no_remote :
    List Text → Bytes × World machine → Option (Result (List Text) × (Bytes × World machine))
no_remote args s = none

local-exits_example :
    let outcome =
      command lab key_files
        (λ t. t)
        (λ e. false)
        (codes "v0.3")
        (codes "usage")
        library
        (connection machine wire)
        (pos 1700000000)
        parsed
        no_remote
        (codes "local")
        []
        (codes "entropy", world) in
    Succeeds lab key_files
      (λ t. t)
      (λ e. false)
      (codes "v0.3")
      (codes "usage")
      library
      (connection machine wire)
      (pos 1700000000)
      sent
      outcome
    ⊎ Fails lab key_files
        (λ t. t)
        (λ e. false)
        (codes "v0.3")
        (codes "usage")
        library
        (connection machine wire)
        (pos 1700000000)
        sent
        outcome
local-exits_example =
    local-exits lab key_files (λ t. t) (λ e. false) (codes "v0.3") (codes "usage") library
      (connection machine wire) (pos 1700000000) parsed no_remote [] key_options
      (codes "entropy", world) refl
