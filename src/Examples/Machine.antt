-- ===== src/Examples/Machine.antt =====
-- The libraries of a machine on which the examples run: a deterministic source of bytes, fields with
-- their lengths in front for the formats, and a table of addresses.
use stprov.Prelude.{
  ℕ, zero, suc, Bool, true, false, Option, none, some, [], ◌∷◌, ◌++◌, Text, Bytes, codes, length,
  take, drop, replicate, text_eq, ◌==◌, if◌then◌else◌, take-append, drop-append, msg, Result, ok,
  err, ◌≡◌, refl, ap, arith,
}
use stprov.Prelude.Int.{ℤ, pos, negsuc}
use stprov.Prelude.Errors.{◌>>=◌}
use stprov.Crypto.{Crypto, AuthBody, KeyBody, Ed25519KeyBody, IsWireFormat, IsReadFull}
use stprov.Net.{Net, IpNet}
use stprov.Api.{Json, IsJson, AddDataRequest, AddSecureBootRequest, CommitResponse}
use stprov.Api.Server.{Platform}
use stprov.Examples.Firmware.{firmware}

abbrev field : Bytes → Bytes → Bytes
field f rest = length f ∷ f ++ rest

abbrev unfield : Bytes → Result (Bytes × Bytes)
unfield [] = err (msg (codes "short data"))
unfield (n ∷ xs) = ok (take n xs, drop n xs)

abbrev number : Bytes → Result (ℕ × Bytes)
number [] = err (msg (codes "short data"))
number (n ∷ xs) = ok (n, xs)

-- The first so many bytes of a text, with zeros behind it.
abbrev pub filled : ℕ → Bytes → Bytes
filled zero r = []
filled (suc n) [] = 0 ∷ filled n []
filled (suc n) (b ∷ r) = b ∷ filled n r

length-filled : (n : ℕ) (r : Bytes) → length (filled n r) ≡ n
length-filled zero r = refl
length-filled (suc n) [] = ap suc (length-filled n [])
length-filled (suc n) (b ∷ r) = ap suc (length-filled n r)

abbrev marshal_auth : AuthBody → Bytes
marshal_auth a =
    field a.cipher_name (
      field a.kdf_name
        (field a.kdf_opts (a.num_keys ∷ field a.pub_key (field a.priv_key_block []))))

abbrev unmarshal_auth : Bytes → Result AuthBody
unmarshal_auth b = do
  (cipher, b1) ← unfield b
  (kdf, b2) ← unfield b1
  (opts, b3) ← unfield b2
  (n, b4) ← number b3
  (public, b5) ← unfield b4
  (priv, b6) ← unfield b5
  ok (record {
    cipher_name = cipher;
    kdf_name = kdf;
    kdf_opts = opts;
    num_keys = n;
    pub_key = public;
    priv_key_block = priv;
  })

abbrev marshal_key : KeyBody → Bytes
marshal_key k = k.check1 ∷ k.check2 ∷ field k.keytype (field k.rest [])

abbrev unmarshal_key : Bytes → Result KeyBody
unmarshal_key b = do
  (c1, b1) ← number b
  (c2, b2) ← number b1
  (t, b3) ← unfield b2
  (r, b4) ← unfield b3
  ok (record { check1 = c1; check2 = c2; keytype = t; rest = r })

abbrev marshal_ed : Ed25519KeyBody → Bytes
marshal_ed k = field k.public (field k.priv (field k.comment (field k.pad [])))

abbrev unmarshal_ed : Bytes → Result Ed25519KeyBody
unmarshal_ed b = do
  (public, b1) ← unfield b
  (priv, b2) ← unfield b1
  (comment, b3) ← unfield b2
  (pad, b4) ← unfield b3
  ok (record { public = public; priv = priv; comment = comment; pad = pad })

abbrev pub library : Crypto
library = record {
  Reader = Bytes;
  hkdf = λ secret salt info. secret ++ salt ++ info;
  read_full = λ n r. (ok (filled n r), drop n r);
  read = λ n r. (ok (filled n r), drop n r);
  generate_key = λ r. (ok (filled 32 r, filled 64 r), r);
  create_certificate = λ template parent public priv r. (ok public, r);
  marshal_pkcs8 = ok;
  Certificate = Bytes;
  parse_certificate = ok;
  KeyPair = Bytes × Bytes;
  x509_key_pair = λ crt priv. ok (crt, priv);
  pem_encode = λ t b. some (t ++ b);
  PublicKey = Bytes;
  new_public_key = ok;
  fingerprint_sha256 = λ key. key;
  marshal_authorized_key = λ key. key;
  key_algo_ed25519 = codes "ssh-ed25519";
  marshal_public = λ t b. t ++ b;
  marshal_auth_body = marshal_auth;
  unmarshal_auth_body = unmarshal_auth;
  marshal_key_body = marshal_key;
  unmarshal_key_body = unmarshal_key;
  marshal_ed25519 = marshal_ed;
  unmarshal_ed25519 = unmarshal_ed;
}

unmarshal_auth-marshal_auth : (a : AuthBody) → unmarshal_auth (marshal_auth a) ≡ ok a
unmarshal_auth-marshal_auth a = simp (take-append, drop-append)

unmarshal_key-marshal_key : (k : KeyBody) → unmarshal_key (marshal_key k) ≡ ok k
unmarshal_key-marshal_key k = simp (take-append, drop-append)

unmarshal_ed-marshal_ed : (k : Ed25519KeyBody) → unmarshal_ed (marshal_ed k) ≡ ok k
unmarshal_ed-marshal_ed k = simp (take-append, drop-append)

pub library-IsWireFormat : IsWireFormat library
library-IsWireFormat = record {
  auth_body = unmarshal_auth-marshal_auth;
  key_body = unmarshal_key-marshal_key;
  ed25519 = unmarshal_ed-marshal_ed;
}

pub library-IsReadFull : IsReadFull library
library-IsReadFull = record { fills = λ n r h. ground (arith, length-filled n r) }

-- An address of the table.
abbrev lab_address : Text → Option Bytes
lab_address t = if text_eq t (codes "10.0.0.7") then some (10 ∷ 0 ∷ 0 ∷ 7 ∷ []) else none

abbrev pub lab_net : IpNet
lab_net = record { ip = 10 ∷ 0 ∷ 0 ∷ 0 ∷ []; mask = 255 ∷ 255 ∷ 255 ∷ 0 ∷ [] }

abbrev lab_cidr : Text → Result (Bytes × IpNet)
lab_cidr t =
    if text_eq t (codes "10.0.0.0/24")
    then ok (10 ∷ 0 ∷ 0 ∷ 0 ∷ [], lab_net)
    else if text_eq t (codes "10.0.0.7/32")
    then ok (10 ∷ 0 ∷ 0 ∷ 7 ∷ [], record { ip = 10 ∷ 0 ∷ 0 ∷ 7 ∷ []; mask = replicate 4 255 })
    else err (msg (codes "invalid CIDR address"))

abbrev pub lab : Net
lab = record {
  parse_ip = lab_address;
  parse_cidr = lab_cidr;
  ip_string = λ ip. codes "10.0.0.7";
  net_string = λ n. codes "10.0.0.0/24";
  next_of = λ t. ok (codes "10.0.0.1");
}

abbrev signed : ℤ → Bytes → Bytes
signed (pos n) rest = 0 ∷ n ∷ rest
signed (negsuc n) rest = 1 ∷ n ∷ rest

abbrev read_signed : Bytes → Result AddDataRequest
read_signed (zero ∷ n ∷ rest) = ok (record { entropy = rest; timestamp = pos n })
read_signed (suc zero ∷ n ∷ rest) = ok (record { entropy = rest; timestamp = negsuc n })
read_signed _ = err (msg (codes "invalid JSON"))

abbrev flag : Bool → ℕ
flag true = 1
flag false = 0

abbrev marshal_secure_boot : AddSecureBootRequest → Bytes
marshal_secure_boot r =
    field r.pk (field r.kek (field r.db (field r.dbx (flag r.reboot_into_uefi_menu ∷ []))))

abbrev unmarshal_secure_boot : Bytes → Result AddSecureBootRequest
unmarshal_secure_boot b = do
  (pk, b1) ← unfield b
  (kek, b2) ← unfield b1
  (db, b3) ← unfield b2
  (dbx, b4) ← unfield b3
  (n, b5) ← number b4
  ok (record { pk = pk; kek = kek; db = db; dbx = dbx; reboot_into_uefi_menu = n == 1 })

abbrev marshal_response : CommitResponse → Bytes
marshal_response r =
    field r.public_key
      (field r.fingerprint (field r.host_name (field r.authentication (field r.identity []))))

abbrev unmarshal_response : Bytes → Result CommitResponse
unmarshal_response b = do
  (public_key, b1) ← unfield b
  (fingerprint, b2) ← unfield b1
  (host_name, b3) ← unfield b2
  (authentication, b4) ← unfield b3
  (identity, b5) ← unfield b4
  ok (record {
    public_key = public_key;
    fingerprint = fingerprint;
    host_name = host_name;
    authentication = authentication;
    identity = identity;
  })

unmarshal_response-marshal_response :
    (r : CommitResponse) → unmarshal_response (marshal_response r) ≡ ok r
unmarshal_response-marshal_response r = simp (take-append, drop-append)

abbrev pub encoding : Json
encoding = record {
  marshal_add_data = λ r. ok (signed r.timestamp r.entropy);
  unmarshal_add_data = read_signed;
  marshal_add_secure_boot = λ r. ok (marshal_secure_boot r);
  unmarshal_add_secure_boot = unmarshal_secure_boot;
  marshal_commit = λ r. ok (marshal_response r);
  unmarshal_commit = unmarshal_response;
}

read_signed-signed :
    (t : ℤ) (b : Bytes) → read_signed (signed t b) ≡ ok (record { entropy = b; timestamp = t })
read_signed-signed (pos n) b = refl
read_signed-signed (negsuc n) b = refl

read_flag : (b : Bool) → (flag b == 1) ≡ b
read_flag true = refl
read_flag false = refl

unmarshal_secure_boot-marshal_secure_boot :
    (r : AddSecureBootRequest) → unmarshal_secure_boot (marshal_secure_boot r) ≡ ok r
unmarshal_secure_boot-marshal_secure_boot r = simp (take-append, drop-append, read_flag)

pub encoding-IsJson : IsJson encoding
encoding-IsJson = record {
  add_data = λ r h. ground (arith, read_signed-signed r.timestamp r.entropy);
  add_secure_boot = λ r h. ground (arith, unmarshal_secure_boot-marshal_secure_boot r);
  commit = λ r h. ground (arith, unmarshal_response-marshal_response r);
}

-- The host of "host:port".
abbrev host_of : Text → Text
host_of [] = []
host_of (c ∷ s) = if c == b':' then [] else c ∷ host_of s

abbrev pub machine : Platform
machine = record {
  crypto = library;
  efi = firmware;
  net = lab;
  json = encoding;
  split_host_port = λ t. ok (host_of t);
}
