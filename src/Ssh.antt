-- ===== src/Ssh.antt =====
-- internal/ssh/ssh.go: SSH host keys in Ed25519 format, written to and read from OpenSSH's private
-- key format.
pub mod Padding
pub mod RoundTrip
use stprov.Prelude.{
  ℕ, zero, suc, ◌+◌, ◌-◌, ◌%◌, Bool, true, false, ◌||◌, Option, none, some, [], ◌∷◌, ◌++◌, Text,
  Bytes, codes, length, take, drop, replicate, text_eq, has_prefix, ◌==◌, ltb, not, if◌then◌else◌,
  Error, msg, wrap, Result, ok, err, ◌≡◌, refl,
}
use stprov.Prelude.Bits.{bit_or}
use stprov.Prelude.Errors
use stprov.Prelude.Exec.{Exec, pure, raise, lift, reads, context, ◌>>=◌, ◌>>◌}
use stprov.Net.{uint_be}
use stprov.Efi.{Efi, Descriptor}
use stprov.Crypto.{Crypto, AuthBody, KeyBody, Ed25519KeyBody}

abbrev pub pem_type_private_key : Text
pem_type_private_key = codes "OPENSSH PRIVATE KEY"

abbrev pub auth_magic : Bytes
auth_magic = codes "openssh-key-v1" ++ 0 ∷ []

abbrev pub public_key_size : ℕ
public_key_size = 32

abbrev pub private_key_size : ℕ
private_key_size = 64

pub record HostKey : Type 0 where
  pub private : Bytes
  pub check : ℕ
  pub comment : Text

-- copy into a zeroed slice of `n` bytes
unfoldable pub copied : ℕ → Bytes → Bytes
copied n xs = take n xs ++ replicate (n - length (take n xs)) 0

-- ed25519.PrivateKey.Public: the second half of the private key
unfoldable pub public_of : Bytes → Bytes
unfolding copied
public_of private = copied public_key_size (drop 32 private)

-- The loop of `addPad` from `i` on, over the length of the comment; `fuel` rounds at most.
unfoldable pub pad_loop : ℕ → ℕ → ℕ → Bytes
pad_loop zero i n = []
pad_loop (suc fuel) i n =
    let rest = pad_loop fuel (i + 1) n in
    if (119 + 4 + n + i) % 8 == 0 then [] else ((i + 1) % 256) ∷ rest

-- Eight rounds are enough: see Ssh/Padding.antt.
unfoldable pub add_pad : Ed25519KeyBody → Ed25519KeyBody
unfolding pad_loop
add_pad b = record b { pad = b.pad ++ pad_loop 8 0 (length b.comment) }

-- The check of the padding in `read`, from index `i` on.
unfoldable pub pad_ok : Bytes → ℕ → Bool
pad_ok [] i = true
pad_ok (b ∷ bs) i = if not (b == i + 1) then false else pad_ok bs (i + 1)

-- strings.TrimRight(s, "\n")
unfoldable pub trim_newlines : Text → Text
trim_newlines [] = []
trim_newlines (c ∷ s) =
    let rest = trim_newlines s in
    if c == b'\n' then (if text_eq rest [] then [] else c ∷ rest) else c ∷ rest

module _ (crypto : Crypto) where
  open crypto use {
    Reader, read as read_some, generate_key, PublicKey, new_public_key, fingerprint_sha256,
    marshal_authorized_key, key_algo_ed25519, marshal_public, marshal_auth_body,
    unmarshal_auth_body, marshal_key_body, unmarshal_key_body, marshal_ed25519, unmarshal_ed25519,
    pem_encode,
  }

  unfoldable pub new_host_key : Text → Exec Reader HostKey
  new_host_key comment = do
    keys ← context (codes "generate key") generate_key
    check ← context (codes "read random") (read_some 4)
    pure (record { private = keys.1; check = uint_be check 0; comment = comment })

  unfoldable pub public_key_of : HostKey → Result PublicKey
  public_key_of hk =
      Errors.context (codes "derive public key") (new_public_key (public_of hk.private))

  unfoldable pub fingerprint : HostKey → Result Text
  fingerprint hk = Errors.◌>>=◌ (public_key_of hk) λ key. ok (fingerprint_sha256 key)

  unfoldable pub public_key : HostKey → Result Text
  public_key hk =
      Errors.◌>>=◌ (public_key_of hk) λ key. ok (trim_newlines (marshal_authorized_key key))

  unfoldable pub key_to_write : HostKey → Ed25519KeyBody
  unfolding add_pad
  key_to_write hk = add_pad (record {
    public = copied public_key_size (public_of hk.private);
    priv = copied private_key_size hk.private;
    comment = hk.comment;
    pad = [];
  })

  -- What `write` writes. Writes to a bytes.Buffer do not fail.
  unfoldable pub write : HostKey → Bytes
  unfolding key_to_write
  write hk =
      let key = key_to_write hk in
      let pk1 : KeyBody = record {
        check1 = hk.check;
        check2 = hk.check;
        keytype = key_algo_ed25519;
        rest = marshal_ed25519 key;
      } in
      let l : AuthBody = record {
        cipher_name = codes "none";
        kdf_name = codes "none";
        kdf_opts = [];
        num_keys = 1;
        pub_key = marshal_public key_algo_ed25519 key.public;
        priv_key_block = marshal_key_body pk1;
      } in
      auth_magic ++ marshal_auth_body l

  unfoldable pub write_pem : HostKey → Result Bytes
  write_pem hk =
      Errors.or_error (msg (codes "pem-encode key: failed"))
        (pem_encode pem_type_private_key (write hk))

  -- `read` once the key is a checked key of type Ed25519
  unfoldable pub read_ed25519 : KeyBody → Result HostKey
  unfolding pad_ok
  read_ed25519 pk1 = Errors.◌>>=◌ (unmarshal_ed25519 pk1.rest) λ key.
      if not (length key.priv == private_key_size)
      then err (msg (codes "ssh: private key unexpected length"))
      else if not (pad_ok key.pad 0)
      then err (msg (codes "ssh: padding not as expected"))
      else ok (record { private = key.priv; check = pk1.check1; comment = key.comment })

  -- `read` of what is left behind the magic bytes
  unfoldable pub read_body : Bytes → Result HostKey
  unfolding read_ed25519
  read_body remaining = Errors.◌>>=◌ (unmarshal_auth_body remaining) λ w.
      if not (text_eq w.kdf_name (codes "none")) || not (text_eq w.cipher_name (codes "none"))
      then err (msg (codes "ssh: cannot decode encrypted private keys"))
      else Errors.◌>>=◌ (unmarshal_key_body w.priv_key_block) λ pk1.
        if not (pk1.check1 == pk1.check2)
        then err (msg (codes "ssh: checkint mismatch"))
        else if text_eq pk1.keytype key_algo_ed25519
        then read_ed25519 pk1
        else err (msg (codes "ssh: unhandled key type"))

  -- The argument is what io.ReadAll returns.
  unfoldable pub read : Result Bytes → Result HostKey
  unfolding read_body
  read input = Errors.◌>>=◌ (Errors.context (codes "ssh") input) λ key.
      if ltb (length key) (length auth_magic)
        || not (text_eq (take (length auth_magic) key) auth_magic)
      then err (msg (codes "ssh: invalid openssh private key format"))
      else read_body (drop (length auth_magic) key)

  module _ (efi : Efi) where
    -- HostKey.WriteEFI
    unfoldable pub write_efi : HostKey → efi.Guid → Text → Exec efi.State (Unit {0})
    write_efi hk guid name = do
      pem ← context (codes "marshal") (lift (write_pem hk))
      let attrs =
          bit_or (bit_or efi.attribute_bootservice_access efi.attribute_runtime_access)
            efi.attribute_non_volatile
      context (codes "marshal") (reads efi.new)
      context (codes "write") (efi.write_variable (record { name = name; guid = guid }) attrs pem)
