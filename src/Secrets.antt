-- ===== src/Secrets.antt =====
-- internal/secrets/secrets.go: the secrets of the provisioning and those that are derived from them.
-- An `Entropy`, a `UniqueDeviceSecret` and a `OneTimePassword` are byte arrays of one length.
pub mod Derivation
use stprov.Prelude.{
  Option, none, some, ℕ, zero, suc, List, ◌+◌, ◌*◌, ◌-◌, ◌/◌, ◌%◌, [], ◌∷◌, ◌++◌, Text, Bytes,
  codes, decimal, ltb, if◌then◌else◌, Error, Result, ok, err,
}
use stprov.Prelude.Bits.{bit_or}
use stprov.Prelude.Errors.{context, ◌>>=◌}
use stprov.Prelude.Exec
use stprov.Prelude.Exec.{Exec}
use stprov.Crypto.{Crypto, CertificateTemplate}
use stprov.Ssh.{HostKey, new_host_key}

abbrev pub entropy_bytes : ℕ
entropy_bytes = 32

abbrev pub dummy_server_name : Text
dummy_server_name = codes "stprov"

-- x509.KeyUsageDigitalSignature and KeyUsageDataEncipherment
abbrev key_usage_digital_signature : ℕ
key_usage_digital_signature = 1

abbrev key_usage_data_encipherment : ℕ
key_usage_data_encipherment = 8

-- x509.ExtKeyUsageServerAuth and ExtKeyUsageClientAuth
abbrev ext_key_usage_server_auth : ℕ
ext_key_usage_server_auth = 1

abbrev ext_key_usage_client_auth : ℕ
ext_key_usage_client_auth = 2

abbrev max_int32 : ℕ
max_int32 = 2147483647

-- time.Unix of seconds and nanoseconds
abbrev unix : ℕ → ℕ → ℕ
unix sec nsec = sec * 1000000000 + nsec

unfoldable pub template : CertificateTemplate
template = record {
  serial_number = 0;
  version = 3;
  not_before = unix 0 0;
  not_after = unix max_int32 max_int32;
  key_usage = bit_or key_usage_digital_signature key_usage_data_encipherment;
  ext_key_usage = ext_key_usage_client_auth ∷ ext_key_usage_server_auth ∷ [];
  dns_names = dummy_server_name ∷ [];
}

unfoldable pub hex_digit : ℕ → ℕ
hex_digit d = if ltb d 10 then b'0' + d else b'a' + (d - 10)

-- hex.EncodeToString
unfoldable pub hex_encode : Bytes → Text
unfolding hex_digit
hex_encode [] = []
hex_encode (b ∷ bs) = hex_digit (b / 16) ∷ hex_digit (b % 16) ∷ hex_encode bs

-- A nil result of pem.EncodeToMemory is the empty slice.
abbrev pub or_empty : Option Bytes → Bytes
or_empty none = []
or_empty (some b) = b

module _ (crypto : Crypto) where
  open crypto use {
    Reader, hkdf, read_full, generate_key, create_certificate, marshal_pkcs8, Certificate,
    parse_certificate, KeyPair, x509_key_pair, pem_encode,
  }

  -- `NewEntropy`; the state is crypto/rand's reader
  unfoldable pub new_entropy : Exec Reader Bytes
  new_entropy = read_full entropy_bytes

  -- `Reader`
  unfoldable pub reader : Bytes → Text → ℕ → Reader
  reader secret label context_number =
      hkdf secret (decimal context_number) (codes "stprov:" ++ label)

  -- io.ReadFull of an entropy's bytes from a fresh reader
  unfoldable pub derive : Bytes → Text → ℕ → Result Bytes
  unfolding reader
  derive secret label context_number =
      (read_full entropy_bytes (reader secret label context_number)).0

  unfoldable pub new_unique_device_secret : Bytes → Exec Reader Bytes
  unfolding new_entropy
  new_unique_device_secret ext =
      Exec.◌>>=◌ new_entropy λ loc. Exec.lift (derive (loc ++ ext) (codes "uds") 1)

  unfoldable pub identity : Bytes → Result Bytes
  identity uds = derive uds (codes "uds:identity") 1

  unfoldable pub authentication : Bytes → Result Bytes
  authentication uds = derive uds (codes "uds:authentication") 1

  -- `SSH`
  unfoldable pub ssh_host_key : Bytes → Result HostKey
  ssh_host_key uds =
      (new_host_key crypto (codes "ospkg@system-transparency") (reader uds (codes "uds:ssh") 1)).0

  unfoldable pub new_one_time_password : Text → Result Bytes
  new_one_time_password secret = derive secret (codes "otp") 1

  unfoldable pub basic_auth_password : Bytes → Result Text
  basic_auth_password otp = do pw ← derive otp (codes "otp:basicAuthPassword") 1; ok (hex_encode pw)

  -- `keyGen`: the private key and the certificate in DER
  unfoldable pub key_gen : Bytes → Result (Bytes × Bytes)
  key_gen otp = do
    (public, priv) ← (generate_key (reader otp (codes "otp:keygen") 1)).0
    crt_der ←
        (create_certificate template template public priv (reader otp (codes "otp:keygen") 2)).0
    priv_der ← marshal_pkcs8 priv
    ok (priv_der, crt_der)

  unfoldable pub x509_certificate : Bytes → Result Certificate
  x509_certificate otp = do (_, crt_der) ← key_gen otp; parse_certificate crt_der

  unfoldable pub tls_certificate : Bytes → Result KeyPair
  tls_certificate otp = do
    (priv_der, crt_der) ← context (codes "generate key-pair") (key_gen otp)
    context (codes "encode key-pair") (
        x509_key_pair (or_empty (pem_encode (codes "CERTIFICATE") crt_der))
          (or_empty (pem_encode (codes "PRIVATE KEY") priv_der)))
