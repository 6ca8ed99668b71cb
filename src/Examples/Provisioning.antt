-- ===== src/Examples/Provisioning.antt =====
-- The commands of stprov remote on the machine of the laboratory: a static configuration, and then
-- the server.
use stprov.Prelude.{
  ℕ, ◌+◌, ◌<◌, Bool, true, false, ◌⊎◌, Option, none, some, List, [], ◌∷◌, ◌++◌, Text, Bytes, codes,
  join, Error, Result, ok, err, inl, inr, ◌≡◌, ◌≢◌, refl, sym, arith,
}
use stprov.Prelude.Int.{pos}
use stprov.Api.{endpoint_commit}
use stprov.Api.Handler.{path_of}
use stprov.Remote.Config.{HostConfig, Stboot}
use stprov.Remote.Static.{StaticOptions, config}
use stprov.Remote.Static.Autodetect.{IsFastest, IsDefault, config-IsDetected}
use stprov.Remote.Static.Complete.{IsComplete, config-IsComplete}
use stprov.Remote.Commit.{Heads, commit_config, persist}
use stprov.Remote.Commit.Persists.{IsHost, IsChecked, commit_config-persist}
use stprov.Remote.Run.{Session}
use stprov.Remote.Main.{RemoteOptions, set_options, host_name_of}
use stprov.Remote.Main.Commands.{Machine, State, main}
use stprov.Remote.Main.Commands.Checks.{detection, address, main-IsAmbiguous}
use stprov.Remote.Main.Commands.Configured.{IsConfigured, static-IsConfigured}
use stprov.Remote.Main.Commands.Dynamic.{IsDynamicallyConfigured, dhcp-IsConfigured}
use stprov.Remote.Main.Commands.Served.{IsServed, run-configured}
use stprov.Examples.Firmware.{Nvram, firmware, firmware-IsStore}
use stprov.Examples.Machine.{machine, lab}
use stprov.Examples.Boot.{setup, lab_host, guid}
use stprov.Examples.Exchange.{lab_session}
use stprov.Examples.Lab.{netlink, card}

abbrev text_or : Option Text → Text
text_or none = []
text_or (some t) = t

abbrev stboot : Stboot netlink
stboot = record {
  host = lab_host;
  config_of = λ cfg. text_or cfg.os_pkg_pointer ++ text_or cfg.description;
  ip_static = 1;
  ip_dynamic = 2;
  bonding_unknown = 0;
  string_to_bonding_mode = λ mode. 0;
  setup_network_interface = λ cfg s. (ok tt, (codes "10.0.0.0/24" ∷ [], true));
}

-- The other end counts the requests.
abbrev heads : Heads
heads = record {
  Client = Text;
  Net = ℕ;
  Certs = Text;
  read_optional_certs_file = ok;
  new_http_client = λ certs insecure. certs;
  new_request = λ url. ok tt;
  perform = λ client url n. (ok (record { status_code = 200; status = codes "200 OK" }), n + 1);
  quoted = λ s. s;
}

abbrev remote : Machine
remote = record {
  p = machine;
  nl = netlink;
  stboot = stboot;
  heads = heads;
  parse_duration = λ t. ok (pos 4000000000);
  version = codes "v0.3";
  now = codes "2023";
}

abbrev var : Text × Text
var = (codes "STHostConfig", guid)

lab-IsHost : IsHost heads firmware lab_host firmware-IsStore var
unfolding stprov.St.host_config_efi_variable_name stprov.St.split_two
lab-IsHost = record { is_var = refl; other = ground arith; json = λ c h. sym h }

abbrev static_options : RemoteOptions
static_options = record {
  command = codes "static";
  args = [];
  mac = codes "52:54:00:12:34:56";
  host_name = [];
  user = codes "u";
  password = codes "p";
  host_ip = codes "10.0.0.0/24";
  gateway = codes "10.0.0.7";
  otp = [];
  full_host_name = codes "lab";
  interface_wait = codes "4s";
  interface = [];
  port = pos 0;
  autodetect = false;
  bonding_auto = false;
  try_last_gateway = false;
  force = false;
  bonding_interfaces = [];
  dns = [];
  url = codes "https://a" ∷ [];
  allowed_cidrs = [];
  bonding_mode = [];
}

abbrev started : State remote
started = (card, (0, setup))

-- What a run of `Main` has made of the machine.
abbrev state_of : Option (Result (Unit {0}) × State remote) → State remote
state_of none = started
state_of (some (r, s)) = s

abbrev configured : Option (Result (Unit {0}) × State remote)
configured = main remote static_options lab_session started

configured-eq_ok : configured ≡ some (ok tt, state_of configured)
unfolding main stprov.Remote.Commit.new_client stprov.Remote.Main.Commands.dispatch
    stprov.Remote.Main.prepare stprov.Remote.Main.count_true stprov.Remote.Main.parse_ips
    stprov.St.host_config_efi_variable_name stprov.Remote.Main.fmt_err
    stprov.Remote.Main.Commands.static_command stprov.Remote.Main.Commands.committed config
    stprov.Options.validate_host_and_gateway stprov.Options.decode_safe_cidr
    stprov.Options.choose_gateway stprov.Net.net_contains stprov.Net.ip_equal
    stprov.Network.Interfaces.reset_interfaces commit_config stprov.Remote.Main.host_name_of
    stprov.Options.construct_url stprov.St.write_host_name stprov.St.write_efi
    stprov.St.write_host_config
configured-eq_ok = refl

static-IsConfigured_example :
    IsConfigured remote firmware-IsStore static_options started (state_of configured)
static-IsConfigured_example =
    static-IsConfigured remote firmware-IsStore static_options lab_session started
      (state_of configured) var refl lab-IsHost configured-eq_ok

abbrev dhcp_options : RemoteOptions
dhcp_options = record static_options { command = codes "dhcp" }

abbrev leased : Option (Result (Unit {0}) × State remote)
leased = main remote dhcp_options lab_session started

leased-eq_ok : leased ≡ some (ok tt, state_of leased)
unfolding main stprov.Remote.Commit.new_client stprov.Remote.Main.Commands.dispatch
    stprov.Remote.Main.prepare stprov.Remote.Main.count_true stprov.Remote.Main.parse_ips
    stprov.St.host_config_efi_variable_name stprov.Remote.Main.fmt_err
    stprov.Remote.Main.Commands.dhcp_command stprov.Remote.Main.Commands.committed
    stprov.Remote.Dhcp.config stprov.Remote.Static.with_default stprov.Options.decode_safe_cidr
    stprov.Network.Interfaces.reset_interfaces commit_config stprov.Remote.Main.host_name_of
    stprov.Options.construct_url stprov.St.write_host_name stprov.St.write_efi
    stprov.St.write_host_config
leased-eq_ok = refl

dhcp-IsConfigured_example :
    IsDynamicallyConfigured remote firmware-IsStore dhcp_options started (state_of leased)
dhcp-IsConfigured_example =
    dhcp-IsConfigured remote firmware-IsStore dhcp_options lab_session started (state_of leased) var
      refl lab-IsHost leased-eq_ok

abbrev run_options : RemoteOptions
run_options = record static_options {
  command = codes "run";
  mac = [];
  host_ip = codes "10.0.0.7";
  otp = codes "sesame";
  port = pos 2009;
  allowed_cidrs = codes "10.0.0.0/24" ∷ [];
}

abbrev served : Option (Result (Unit {0}) × State remote)
served = main remote run_options lab_session (state_of configured)

served-eq_ok : served ≡ some (ok tt, state_of served)
unfolding main stprov.Remote.Commit.new_client stprov.Remote.Main.Commands.dispatch
    stprov.Remote.Main.prepare stprov.Remote.Main.count_true stprov.Remote.Main.parse_ips
    stprov.St.host_config_efi_variable_name stprov.Remote.Main.fmt_err
    stprov.Remote.Main.Commands.static_command stprov.Remote.Main.Commands.committed config
    stprov.Options.validate_host_and_gateway stprov.Options.decode_safe_cidr
    stprov.Options.choose_gateway stprov.Net.net_contains stprov.Net.ip_equal
    stprov.Network.Interfaces.reset_interfaces commit_config stprov.Remote.Main.host_name_of
    stprov.Options.construct_url stprov.St.write_host_name stprov.St.write_efi
    stprov.St.write_host_config stprov.Remote.Main.Commands.run_command stprov.Remote.Run.main
    stprov.Remote.Run.listen_on stprov.Remote.Run.parse_allowed_nets
    stprov.Remote.Run.write_host_key stprov.St.read_host_name stprov.St.read_efi
    stprov.Api.Server.new_server stprov.Prelude.decimal stprov.Prelude.digits_of
    stprov.Secrets.new_one_time_password stprov.Secrets.derive stprov.Secrets.tls_certificate
    stprov.Secrets.key_gen stprov.Secrets.basic_auth_password stprov.Secrets.hex_encode
    stprov.Secrets.hex_digit stprov.Api.Invariant.serve_all stprov.Api.Handler.serve
    stprov.Api.Handler.serve_http stprov.Api.Handler.verify_method stprov.Api.Handler.verify_network
    stprov.Api.Handler.authenticate_user stprov.Api.Handler.finish stprov.Api.Handler.handle_commit
    stprov.Api.new_commit_response stprov.Secrets.new_unique_device_secret stprov.Secrets.identity
    stprov.Secrets.authentication stprov.Secrets.ssh_host_key stprov.Ssh.new_host_key
    stprov.Ssh.fingerprint stprov.Ssh.public_key stprov.Ssh.public_key_of stprov.Ssh.write_efi
    stprov.Ssh.write_pem stprov.Ssh.write
served-eq_ok = refl

run-configured_example :
    IsServed remote firmware-IsStore run_options lab_session
      (codes "lab")
      guid
      (state_of configured).1.1
      (state_of served).1.1
unfolding host_name_of
run-configured_example =
    run-configured remote firmware-IsStore static_options run_options lab_session lab_session
      started (state_of configured) (state_of served) var (inl refl) refl lab-IsHost
      configured-eq_ok served-eq_ok

main-IsAmbiguous_example :
    (e : Error) × (main remote (record static_options { autodetect = true }) lab_session started
      ≡ some (err e, started))
main-IsAmbiguous_example =
    main-IsAmbiguous remote (record static_options { autodetect = true }) lab_session started
      (inr (detection, address, omega arith, refl, ground arith))

abbrev options : StaticOptions
options = record {
  args = [];
  dns_servers = [];
  interface = codes "52:54:00:12:34:56";
  host_ip = codes "10.0.0.0/24";
  gateway = codes "10.0.0.7";
  interface_wait = pos 4000000000;
  autodetect = false;
  bonding_auto = false;
  bonding_interfaces = [];
  bonding_mode = [];
  force = false;
  try_last_gateway = false;
}

abbrev lab_config : HostConfig Text
lab_config = record {
  host_ip = some (codes "10.0.0.0/24");
  default_gateway = some (10 ∷ 0 ∷ 0 ∷ 7 ∷ []);
  ip_addr_mode = 1;
  dns_server = [];
  network_interfaces =
      record { interface_name = codes "eth0"; mac_address = some (codes "52:54:00:12:34:56") } ∷ [];
  bonding_mode = none;
  bond_name = none;
  os_pkg_pointer = none;
  description = none;
}

config-IsComplete_example :
    IsComplete lab netlink stboot options card (config lab netlink stboot options card).1 lab_config
unfolding config stprov.Options.validate_host_and_gateway stprov.Options.choose_gateway
    stprov.Net.net_contains stprov.Net.ip_equal stprov.Network.Interfaces.reset_interfaces
    stprov.Network.Interfaces.get_interface_name
config-IsComplete_example = config-IsComplete lab netlink stboot options card lab_config refl

abbrev urls : List Text
urls = codes "https://a" ∷ codes "https://user:password@b" ∷ []

abbrev committed : Result (Unit {0}) × (ℕ × Nvram)
committed =
    commit_config heads firmware lab_host (codes "lab") (λ pointer. pointer) urls (codes "u")
      (codes "p") false (0, setup)

commit_config-persist_example :
    ((e : Error) × (committed.0 ≡ err e) × (committed.1.1 ≡ setup))
    ⊎ ((us : List Text) × IsChecked heads firmware lab_host urls us (codes "u") (codes "p") false 0
        × (codes "lab" ≢ [])
        × (committed.0
            ≡ (persist heads firmware lab_host (codes "lab") (join us (codes ",")) setup).0)
        × (committed.1.1
            ≡ (persist heads firmware lab_host (codes "lab") (join us (codes ",")) setup).1))
commit_config-persist_example =
    commit_config-persist heads firmware lab_host (codes "lab") (λ pointer. pointer) urls
      (codes "u") (codes "p") false 0 setup

abbrev detecting : StaticOptions
detecting = record options { interface = []; autodetect = true }

config-IsDetected_example :
    (c : IsComplete lab netlink stboot detecting
      ([], false)
      (config lab netlink stboot detecting ([], false)).1
      lab_config)
    × (IsFastest lab netlink stboot detecting c.gateway ([], false) c.choice
        ⊎ IsDefault lab netlink stboot detecting c.gateway ([], false) c.choice)
unfolding config stprov.Options.validate_host_and_gateway stprov.Options.choose_gateway
    stprov.Net.net_contains stprov.Net.ip_equal stprov.Network.Interfaces.get_interface_name
    stprov.Remote.Static.interface_of stprov.Remote.Static.first_bonded
    stprov.Remote.Static.autodetected stprov.Remote.Static.with_default
    stprov.Network.Testing.test_interfaces stprov.Network.Testing.test_link
    stprov.Network.links_by_descending_speed stprov.Network.Interfaces.for_each_interface
    stprov.Network.Interfaces.conf_link stprov.Network.Interfaces.has_addrs
    stprov.Network.Interfaces.test_gateway stprov.Network.Interfaces.reset_interfaces
    stprov.Network.Device.wait_for_device_event stprov.Network.Device.get_device_speed
config-IsDetected_example =
    config-IsDetected lab netlink stboot detecting ([], false) lab_config refl refl refl refl
