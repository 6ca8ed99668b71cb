-- ===== src/Examples/Exchange.antt =====
-- Examples of the two programs together, and of what stays when `remote run` is done.
use stprov.Prelude.{
  ℕ, Bool, true, false, Option, none, some, List, [], ◌∷◌, ◌++◌, Text, Bytes, codes, length,
  replicate, Result, ok, err, inl, inr, ◌≡◌, refl, arith,
}
use stprov.Prelude.Int.{pos}
use stprov.Api.{
  AddDataRequest, CommitResponse, basic_auth_user, endpoint_add_data, endpoint_add_secure_boot,
  endpoint_commit,
}
use stprov.Api.Server.{Request, World}
use stprov.Api.Handler.{path_of}
use stprov.Api.Client.{Client, add_data, add_secure_boot_keys, commit}
use stprov.Api.Answer.{IsAnswer, commit-IsAnswer}
use stprov.Api.Exchange.{Link, connection, IsReachable, add_data-delivers}
use stprov.Remote.Run.{Session, main}
use stprov.Remote.Run.Persists.{IsConfirmed, listens_on, IsPersisted, main-IsPersisted}
use stprov.St.{write_host_name}
use stprov.Examples.Firmware.{Nvram, firmware-IsStore}
use stprov.Examples.Boot.{setup}
use stprov.Examples.Machine.{machine, library, encoding-IsJson}
use stprov.Examples.Session.{
  world, posted, data_sent, lab_config, lab_client_config, lab_client, lab_server,
  new_server-lab_config, new_client-lab_client_config,
}

abbrev pub cable : Link
cable = record {
  remote_addr = codes "10.0.0.7:40000";
  url_path = λ url. path_of machine endpoint_add_data;
  new_request = λ method url. ok tt;
}

lab-IsReachable :
    IsReachable machine cable encoding-IsJson lab_config lab_client_config lab_client world
      new_server-lab_config new_client-lab_client_config refl
unfolding stprov.Net.net_contains
lab-IsReachable = record {
  host = codes "10.0.0.7";
  ip = 10 ∷ 0 ∷ 0 ∷ 7 ∷ [];
  is_host = refl;
  is_ip = refl;
  inside = inl refl;
  routed = refl;
  valid_url = refl;
}

abbrev lab_result : Result AddDataRequest × (Bytes × World machine)
lab_result =
    add_data library (connection machine cable) lab_client (pos 1700000000) (replicate 32 5, world)

add_data-delivers_example :
    (lab_result.0 ≡ ok data_sent)
    × (lab_result.1.1.server
        ≡ record lab_server { entropy = replicate 32 5; timestamp = pos 1700000000 })
unfolding stprov.Secrets.new_entropy
add_data-delivers_example =
    add_data-delivers machine cable encoding-IsJson lab_config lab_client_config lab_client world
      new_server-lab_config new_client-lab_client_config refl (pos 1700000000) (replicate 32 5)
      (replicate 32 5) (0 ∷ 1700000000 ∷ replicate 32 5) lab-IsReachable refl refl refl refl

abbrev wire : Link
wire = record cable { url_path = λ url. path_of machine endpoint_commit }

abbrev told : Result CommitResponse × (Bytes × World machine)
told = commit library (connection machine wire) lab_client (replicate 32 5, world)

abbrev nobody : CommitResponse
nobody = record {
  public_key = [];
  fingerprint = [];
  host_name = [];
  authentication = [];
  identity = [];
}

abbrev response_of : Result CommitResponse → CommitResponse
response_of (err e) = nobody
response_of (ok cr) = cr

commit-IsAnswer_example : IsAnswer machine wire (response_of told.0) world told.1.1
unfolding commit stprov.Api.Client.do_get stprov.Api.Client.do_request stprov.Api.Handler.serve
    stprov.Api.Handler.serve_http stprov.Api.Handler.verify_method stprov.Api.Handler.verify_network
    stprov.Net.net_contains stprov.Api.Handler.authenticate_user stprov.Secrets.hex_encode
    stprov.Secrets.hex_digit stprov.Api.Handler.finish stprov.Api.Handler.handle_commit
    stprov.Secrets.new_unique_device_secret stprov.Secrets.derive stprov.Secrets.identity
    stprov.Secrets.authentication stprov.Api.new_commit_response stprov.Secrets.ssh_host_key
    stprov.Ssh.new_host_key stprov.Ssh.fingerprint stprov.Ssh.public_key stprov.Ssh.public_key_of
    stprov.Ssh.trim_newlines stprov.Ssh.public_of stprov.Prelude.decimal
commit-IsAnswer_example =
    commit-IsAnswer machine wire encoding-IsJson lab_client (replicate 32 5) world
      (response_of told.0) refl refl

abbrev pub guid : Text
guid = codes "f401f2c1-b005-4be0-8cee-f2e5945bcbe7"

-- The commit, with the credentials that go with the password of the session.
abbrev pub lab_session : Session machine
lab_session = record {
  rand = codes "randomness";
  arrivals = (path_of machine endpoint_commit, record (posted []) { method = codes "GET" }) ∷ [];
  died = none;
  confirmation = ok (codes "yes");
  write_error = none;
}

abbrev pub named : Nvram
named = (record { name = codes "STHostName"; guid = guid }, 7, codes "lab") ∷ setup

abbrev outcome : Option (Result (Unit {0}) × Nvram)
outcome =
    main machine [] (pos 2009) (codes "10.0.0.7") (codes "10.0.0.0/24" ∷ []) (codes "sesame") guid
      (codes "STHostKey") (codes "STHostName") lab_session named

abbrev pub nvram_of : Option (Result (Unit {0}) × Nvram) → Nvram
nvram_of none = []
nvram_of (some r) = r.1

main-IsPersisted_example :
    (uds : Bytes) × IsConfirmed machine firmware-IsStore
      (listens_on machine firmware-IsStore []
        (pos 2009)
        (codes "10.0.0.7")
        (codes "10.0.0.0/24" ∷ [])
        (codes "sesame")
        guid
        (codes "STHostName")
        named)
      (codes "sesame")
      lab_session
      named
      uds
    × IsPersisted machine firmware-IsStore guid (codes "STHostKey") uds (nvram_of outcome)
unfolding main stprov.Remote.Run.listen_on stprov.Remote.Run.parse_allowed_nets
    stprov.Remote.Run.write_host_key stprov.St.read_host_name stprov.St.read_efi
    stprov.Api.Server.new_server stprov.Prelude.decimal stprov.Prelude.digits_of
    stprov.Secrets.new_one_time_password stprov.Secrets.derive stprov.Secrets.tls_certificate
    stprov.Secrets.key_gen stprov.Secrets.basic_auth_password stprov.Secrets.hex_encode
    stprov.Secrets.hex_digit stprov.Api.Invariant.serve_all stprov.Api.Handler.serve
    stprov.Api.Handler.serve_http stprov.Api.Handler.verify_method stprov.Api.Handler.verify_network
    stprov.Net.net_contains stprov.Api.Handler.authenticate_user stprov.Api.Handler.finish
    stprov.Api.Handler.handle_commit stprov.Api.new_commit_response
    stprov.Secrets.new_unique_device_secret stprov.Secrets.identity stprov.Secrets.authentication
    stprov.Secrets.ssh_host_key stprov.Ssh.new_host_key stprov.Ssh.fingerprint stprov.Ssh.public_key
    stprov.Ssh.public_key_of stprov.Ssh.write_efi stprov.Ssh.write_pem stprov.Ssh.write
main-IsPersisted_example =
    main-IsPersisted machine firmware-IsStore [] (pos 2009) (codes "10.0.0.7")
      (codes "10.0.0.0/24" ∷ []) (codes "sesame") guid (codes "STHostKey") (codes "STHostName")
      lab_session named {nvram = nvram_of outcome} refl
