-- ===== src/Examples/Server.antt =====
-- Examples for the server: internal/api/server.go and handler.go.
use stprov.Prelude.{
  none, some, List, [], ◌∷◌, Text, Bytes, codes, replicate, Error, inl, ◌≡◌, refl, arith,
}
use stprov.Api.{check, endpoint_add_data, endpoint_commit, endpoint_add_secure_boot}
use stprov.Api.Server.{World, Request, Event}
use stprov.Api.Handler.{
  Handler, handle_add_data, handle_add_secure_boot, handle_commit, serve_http, respond, path_of,
}
use stprov.Api.Access.{IsAllowed, IsRefusal, serve_http-refused}
use stprov.Api.Handling.{IsAcceptable, handle_add_data-rejects, handle_add_secure_boot-provisions}
use stprov.Api.Commit.{Committed, after_commit, handle_commit-commits}
use stprov.Api.Invariant.{serve_all, IsWellFormed, created-IsWellFormed}
use stprov.Sb.{provision, request_reboot_into_uefi_menu, is_setup_mode}
use stprov.Examples.Firmware.{firmware}
use stprov.Examples.Boot.{setup}
use stprov.Examples.Machine.{machine, library-IsReadFull, lab}
use stprov.Examples.Session.{world, posted, keys_sent, lab_config, new_server-lab_config}

abbrev data_body : Bytes
data_body = 0 ∷ 1700000000 ∷ replicate 32 5

abbrev data_handler : Handler machine
data_handler = record {
  endpoint = endpoint_add_data;
  method = codes "POST";
  handler_func = handle_add_data machine;
}

posted-IsAllowed : IsAllowed machine data_handler (posted data_body) world
unfolding stprov.Net.net_contains
posted-IsAllowed = record {
  same_method = refl;
  host = codes "10.0.0.7";
  ip = 10 ∷ 0 ∷ 0 ∷ 7 ∷ [];
  is_host = refl;
  is_ip = refl;
  inside = inl refl;
  credentials = refl;
}

-- A request without credentials.
abbrev anonymous : Request
anonymous = record (posted data_body) { basic_auth = none }

anonymous_refused : ¬ IsAllowed machine data_handler anonymous world
anonymous_refused a = ground (arith, a.credentials)

serve_http-refused_example :
    (events : List Event) × IsRefusal (codes "POST") events
    × (serve_http machine data_handler anonymous world ≡ respond machine events world)
serve_http-refused_example =
    serve_http-refused machine data_handler anonymous world anonymous_refused

abbrev early_body : Bytes
early_body = 1 ∷ 0 ∷ replicate 32 5

early_rejected : ¬ IsAcceptable machine (posted early_body)
early_rejected (d, e, size, sign) = ground arith

handle_add_data-rejects_example :
    (e : Error) × (handle_add_data machine (posted early_body) world ≡ ((400, some e), world))
handle_add_data-rejects_example =
    handle_add_data-rejects machine (posted early_body) world early_rejected

handle_commit-commits_example :
    (c : Committed machine world) × ((handle_commit machine (posted []) world).1
      ≡ after_commit machine world c)
unfolding handle_commit stprov.Api.new_commit_response stprov.Secrets.new_unique_device_secret
    stprov.Secrets.derive stprov.Secrets.identity stprov.Secrets.authentication
    stprov.Secrets.ssh_host_key stprov.Ssh.new_host_key stprov.Ssh.fingerprint stprov.Ssh.public_key
    stprov.Ssh.public_key_of
handle_commit-commits_example = handle_commit-commits machine (posted []) world refl

handle_add_secure_boot-provisions_example :
    let after = provision firmware (1 ∷ []) (2 ∷ []) (3 ∷ []) [] setup in
    ((handle_add_secure_boot machine (posted (1 ∷ 1 ∷ 1 ∷ 2 ∷ 1 ∷ 3 ∷ 0 ∷ 1 ∷ [])) world).1
      ≡ record world { nvram = (request_reboot_into_uefi_menu firmware after.1).1 })
    × ((handle_add_secure_boot machine (posted (1 ∷ 1 ∷ 1 ∷ 2 ∷ 1 ∷ 3 ∷ 0 ∷ 1 ∷ [])) world).0
        ≡ (200, none))
unfolding provision stprov.Sb.efi_authenticated_write check is_setup_mode stprov.Sb.efi_read
    stprov.Sb.setup_mode_of
handle_add_secure_boot-provisions_example =
    handle_add_secure_boot-provisions machine (posted (1 ∷ 1 ∷ 1 ∷ 2 ∷ 1 ∷ 3 ∷ 0 ∷ 1 ∷ [])) world
      keys_sent (ground arith) refl refl

abbrev broken : World machine
broken = record world { write_error = some (Error.msg (codes "broken pipe")) }

abbrev arrivals : List (Text × Request)
arrivals =
    (path_of machine endpoint_add_data, posted data_body)
    ∷ (path_of machine endpoint_commit, record (posted []) { method = codes "GET" })
    ∷ []

created-IsWellFormed_example : IsWellFormed (serve_all machine arrivals world).server
created-IsWellFormed_example =
    created-IsWellFormed machine library-IsReadFull lab lab_config arrivals world
      new_server-lab_config
