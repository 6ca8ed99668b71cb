-- ===== src/Examples/Client.antt =====
-- Examples for the subcommands `local run` and `remote run`.
use stprov.Prelude.{true, false, [], ◌∷◌, Text, codes, replicate, ok, ◌≡◌, refl}
use stprov.Prelude.Int.{pos}
use stprov.Net.{IpNet}
use stprov.Local.Run.{
  FileRead, missing, content, Options, KeyFiles, read_key_files, client_config, exchanges,
}
use stprov.Local.Run.Checks.{IsComplete, KeysMatch, client_config-IsComplete}
use stprov.Remote.Run.{parse_allowed_nets}
use stprov.Remote.Run.AllowedNets.{AllParsed, parse_allowed_nets-AllParsed}
use stprov.Examples.Machine.{lab, lab_net}
use stprov.Examples.Session.{lab_client_config}

abbrev pub no_files : Text → FileRead
no_files name = missing

abbrev pub options : Options
options = record {
  args = [];
  port = pos 2009;
  ip = codes "10.0.0.7";
  otp = codes "sesame";
  pk_file = [];
  kek_file = [];
  db_file = [];
  dbx_file = [];
  no_uefi_menu_reboot = true;
}

client_config-IsComplete_example :
    IsComplete lab no_files options lab_client_config
    × (k : KeyFiles) × (read_key_files no_files options ≡ ok k)
    × KeysMatch lab no_files k lab_client_config false
unfolding client_config stprov.Local.Run.connection_of read_key_files
client_config-IsComplete_example =
    client_config-IsComplete lab no_files options lab_client_config false refl

parse_allowed_nets-AllParsed_example :
    AllParsed lab
      (codes "10.0.0.0/24" ∷ codes "10.0.0.7" ∷ [])
      (lab_net ∷ record { ip = 10 ∷ 0 ∷ 0 ∷ 7 ∷ []; mask = replicate 4 255 } ∷ [])
unfolding parse_allowed_nets stprov.Net.to4
parse_allowed_nets-AllParsed_example =
    parse_allowed_nets-AllParsed lab (codes "10.0.0.0/24" ∷ codes "10.0.0.7" ∷ [])
      (lab_net ∷ record { ip = 10 ∷ 0 ∷ 0 ∷ 7 ∷ []; mask = replicate 4 255 } ∷ []) refl
