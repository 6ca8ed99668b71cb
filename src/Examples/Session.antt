-- ===== src/Examples/Session.antt =====
-- A server of stprov remote that was just created, a client of stprov local with the same one-time
-- password, and requests between them.
use stprov.Prelude.{
  Bool, true, false, Option, none, some, List, [], ◌∷◌, ◌++◌, Text, Bytes, codes, replicate, Result,
  ok, ◌≡◌, refl,
}
use stprov.Prelude.Int.{pos}
use stprov.Secrets.{hex_encode}
use stprov.Api.{AddDataRequest, AddSecureBootRequest, basic_auth_user}
use stprov.Api.Server.{Server, ServerConfig, World, Request, new_server}
use stprov.Api.Client.{Client, ClientConfig, new_client}
use stprov.Examples.Boot.{setup}
use stprov.Examples.Machine.{library, lab, lab_net, machine, filled}

abbrev pub lab_config : ServerConfig
lab_config = record {
  secret = codes "sesame";
  remote_ip = 10 ∷ 0 ∷ 0 ∷ 7 ∷ [];
  remote_port = 2009;
  local_cidr = lab_net ∷ [];
  host_name = codes "lab";
  deadline = 15;
  timeout = 60;
}

abbrev otp : Bytes
otp = filled 32 (codes "sesame1stprov:otp")

abbrev pub lab_password : Text
lab_password = hex_encode otp

abbrev pub lab_server : Server library
lab_server = record {
  config = lab_config;
  addr = codes "10.0.0.7:2009";
  certificate = (
    codes "CERTIFICATE" ++ otp,
    codes "PRIVATE KEY" ++ filled 64 (otp ++ codes "1stprov:otp:keygen"),
  );
  entropy = replicate 32 0;
  timestamp = pos 0;
  uds = none;
  basic_auth_password = lab_password;
  commit = 0;
}

pub new_server-lab_config : new_server library lab lab_config ≡ ok lab_server
unfolding new_server stprov.Prelude.decimal stprov.Prelude.digits_of stprov.Secrets.derive
    stprov.Secrets.reader stprov.Secrets.basic_auth_password stprov.Secrets.new_one_time_password
    stprov.Secrets.key_gen stprov.Secrets.tls_certificate
new_server-lab_config = refl

abbrev pub world : World machine
world = record {
  server = lab_server;
  nvram = setup;
  rand = codes "randomness";
  response = [];
  write_error = none;
}

abbrev pub posted : Bytes → Request
posted b = record {
  method = codes "POST";
  remote_addr = codes "10.0.0.7:40000";
  basic_auth = some (basic_auth_user, lab_password);
  body = ok b;
}

abbrev pub data_sent : AddDataRequest
data_sent = record { entropy = replicate 32 5; timestamp = pos 1700000000 }

abbrev pub keys_sent : AddSecureBootRequest
keys_sent = record {
  pk = 1 ∷ [];
  kek = 2 ∷ [];
  db = 3 ∷ [];
  dbx = [];
  reboot_into_uefi_menu = true;
}

abbrev pub lab_client_config : ClientConfig
lab_client_config = record {
  secret = codes "sesame";
  remote_ip = 10 ∷ 0 ∷ 0 ∷ 7 ∷ [];
  remote_port = 2009;
  pk = [];
  kek = [];
  db = [];
  dbx = [];
  reboot_into_uefi_menu = false;
}

abbrev pub lab_client : Client library
lab_client = record {
  config = lab_client_config;
  root = otp;
  basic_auth_password = lab_password;
  server_url = codes "https://10.0.0.7:2009/stprov/v0.0.1/";
}

pub new_client-lab_client_config : new_client library lab lab_client_config ≡ ok lab_client
unfolding new_client stprov.Prelude.decimal stprov.Prelude.digits_of stprov.Secrets.derive
    stprov.Secrets.reader stprov.Secrets.basic_auth_password stprov.Secrets.new_one_time_password
    stprov.Secrets.key_gen stprov.Secrets.x509_certificate
new_client-lab_client_config = refl
