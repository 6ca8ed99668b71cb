-- ===== src/Examples/Keys.antt =====
-- Examples for internal/ssh and internal/secrets.
use stprov.Prelude.{◌+◌, ◌%◌, ◌≤◌, true, [], ◌++◌, Bytes, codes, length, replicate, ok, ◌≡◌, refl}
use stprov.Crypto.{Ed25519KeyBody}
use stprov.Ssh.{HostKey, add_pad, pad_ok, read, write}
use stprov.Ssh.Padding.{add_pad-pad_ok}
use stprov.Ssh.RoundTrip.{read-write}
use stprov.Secrets.{derive, new_entropy, new_unique_device_secret}
use stprov.Secrets.Derivation.{new_unique_device_secret-mixes}
use stprov.Examples.Machine.{library, library-IsWireFormat, library-IsReadFull, filled}

abbrev unpadded : Ed25519KeyBody
unpadded = record {
  public = replicate 32 1;
  priv = replicate 64 1;
  comment = codes "ospkg@system-transparency";
  pad = [];
}

add_pad-pad_ok_example :
    (pad_ok (add_pad unpadded).pad 0 ≡ true)
    × ((119 + 4 + length unpadded.comment + length (add_pad unpadded).pad) % 8 ≡ 0)
    × (length (add_pad unpadded).pad ≤ 7)
add_pad-pad_ok_example = add_pad-pad_ok unpadded refl

abbrev example_key : HostKey
example_key = record { private = replicate 64 7; check = 0x01020304; comment = codes "host" }

read-write_example : read library (ok (write library example_key)) ≡ ok example_key
read-write_example = read-write library library-IsWireFormat example_key refl

abbrev external : Bytes
external = replicate 32 9

new_unique_device_secret-mixes_example :
    (loc : Bytes) × ((new_entropy library (codes "rand")).0 ≡ ok loc)
    × (length loc ≡ 32)
    × (derive library (loc ++ external) (codes "uds") 1 ≡ ok (filled 32 (codes "rand")))
    × (length (filled 32 (codes "rand")) ≡ 32)
unfolding new_unique_device_secret derive
new_unique_device_secret-mixes_example =
    new_unique_device_secret-mixes library library-IsReadFull external (codes "rand") refl
