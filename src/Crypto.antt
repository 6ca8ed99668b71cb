-- ===== src/Crypto.antt =====
-- What the code calls of the packages golang.org/x/crypto/hkdf and golang.org/x/crypto/ssh, and of
-- Go's crypto and encoding/pem packages: a parameter of the modules that derive secrets, keys and
-- certificates, or that write and read keys.
use stprov.Prelude.{ℕ, Option, List, Text, Bytes, length, ◌≡◌, Result, ok}
use stprov.Prelude.Exec.{Exec}

-- The structures of internal/ssh/ssh.go that golang.org/x/crypto/ssh writes and reads.
pub record AuthBody : Type 0 where
  pub cipher_name : Text
  pub kdf_name : Text
  pub kdf_opts : Text
  pub num_keys : ℕ
  pub pub_key : Bytes
  pub priv_key_block : Bytes

pub record KeyBody : Type 0 where
  pub check1 : ℕ
  pub check2 : ℕ
  pub keytype : Text
  pub rest : Bytes

pub record Ed25519KeyBody : Type 0 where
  pub public : Bytes
  pub priv : Bytes
  pub comment : Text
  pub pad : Bytes

-- x509.Certificate, with the fields that the code sets; a time is in nanoseconds since 1970
pub record CertificateTemplate : Type 0 where
  pub serial_number : ℕ
  pub version : ℕ
  pub not_before : ℕ
  pub not_after : ℕ
  pub key_usage : ℕ
  pub ext_key_usage : List ℕ
  pub dns_names : List Text

pub record Crypto : Type 1 where
  -- io.Reader, as a source of randomness
  pub Reader : Type 0
  -- hkdf.New(sha256.New, secret, salt, info)
  pub hkdf : Bytes → Text → Text → Reader
  -- io.ReadFull(r, buf) for a buffer of that many bytes
  pub read_full : ℕ → Exec Reader Bytes
  -- r.Read(buf): what a zeroed buffer of that many bytes holds after the call
  pub read : ℕ → Exec Reader Bytes
  -- ed25519.GenerateKey: the public and the private key
  pub generate_key : Exec Reader (Bytes × Bytes)
  -- x509.CreateCertificate of a template and a parent, with the public and the private key
  pub create_certificate :
      CertificateTemplate → CertificateTemplate → Bytes → Bytes → Exec Reader Bytes
  -- x509.MarshalPKCS8PrivateKey
  pub marshal_pkcs8 : Bytes → Result Bytes
  -- x509.Certificate and x509.ParseCertificate
  pub Certificate : Type 0
  pub parse_certificate : Bytes → Result Certificate
  -- tls.Certificate and tls.X509KeyPair of the certificate's and the key's PEM
  pub KeyPair : Type 0
  pub x509_key_pair : Bytes → Bytes → Result KeyPair
  -- pem.EncodeToMemory of a block's type and bytes; none for a nil result
  pub pem_encode : Text → Bytes → Option Bytes
  -- ssh.NewPublicKey of an Ed25519 key, ssh.FingerprintSHA256 and ssh.MarshalAuthorizedKey
  pub PublicKey : Type 0
  pub new_public_key : Bytes → Result PublicKey
  pub fingerprint_sha256 : PublicKey → Text
  pub marshal_authorized_key : PublicKey → Text
  -- ssh.KeyAlgoED25519
  pub key_algo_ed25519 : Text
  -- ssh.Marshal and ssh.Unmarshal
  pub marshal_public : Text → Bytes → Bytes
  pub marshal_auth_body : AuthBody → Bytes
  pub unmarshal_auth_body : Bytes → Result AuthBody
  pub marshal_key_body : KeyBody → Bytes
  pub unmarshal_key_body : Bytes → Result KeyBody
  pub marshal_ed25519 : Ed25519KeyBody → Bytes
  pub unmarshal_ed25519 : Bytes → Result Ed25519KeyBody

-- ssh.Unmarshal parses what ssh.Marshal writes.
pub record IsWireFormat (crypto : Crypto) : Type 0 where
  pub auth_body : (a : AuthBody) → crypto.unmarshal_auth_body (crypto.marshal_auth_body a) ≡ ok a
  pub key_body : (k : KeyBody) → crypto.unmarshal_key_body (crypto.marshal_key_body k) ≡ ok k
  pub ed25519 : (k : Ed25519KeyBody) → crypto.unmarshal_ed25519 (crypto.marshal_ed25519 k) ≡ ok k

-- io.ReadFull fills the buffer or fails.
pub record IsReadFull (crypto : Crypto) : Type 0 where
  pub fills :
      (n : ℕ) (r : crypto.Reader) {b : Bytes} → (crypto.read_full n r).0 ≡ ok b → length b ≡ n
