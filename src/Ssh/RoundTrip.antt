-- ===== src/Ssh/RoundTrip.antt =====
-- Reading a host key that was written (internal/ssh/ssh.go).
use stprov.Prelude.{
  ℕ, ◌-◌, true, false, [], ◌∷◌, ◌++◌, Text, Bytes, codes, length, take, text_eq_refl, append-nil,
  ltb, ok, ◌≡◌, refl, ap, ◌∙◌, arith, ==_iff,
}
use stprov.Crypto.{Crypto, IsWireFormat, AuthBody, KeyBody, Ed25519KeyBody}
use stprov.Ssh.{
  HostKey, copied, add_pad, pad_ok, public_of, key_to_write, write, read, read_body, read_ed25519,
  auth_magic, private_key_size,
}
use stprov.Ssh.Padding.{add_pad-pad_ok}

take_all : (xs : Bytes) → take (length xs) xs ≡ xs
take_all [] = refl
take_all (x ∷ xs) = ap (λ t. x ∷ t) (take_all xs)

copied_all : (xs : Bytes) (n : ℕ) → length xs ≡ n → copied n xs ≡ xs
unfolding copied
copied_all xs n e = rw (← e, take_all xs) (rw (none_left (length xs)) (append-nil xs))
  where
    none_left : (k : ℕ) → k - k ≡ 0
    none_left k = omega arith

-- Past the magic bytes `read` is `read_body`.
read-auth_magic :
    (crypto : Crypto) (x : Bytes) → read crypto (ok (auth_magic ++ x)) ≡ read_body crypto x
read-auth_magic crypto x =
    let long : ltb (length (auth_magic ++ x)) (length auth_magic) ≡ false = ground arith in
    unfold read in rw long refl

module _ (crypto : Crypto) (wire : IsWireFormat crypto) where
  -- What is written of the key alone.
  written : HostKey → Ed25519KeyBody
  written hk = key_to_write crypto hk

  written-pad_ok : (hk : HostKey) → pad_ok (written hk).pad 0 ≡ true
  unfolding written key_to_write
  written-pad_ok hk =
      (add_pad-pad_ok
        (record {
          public = copied 32 (public_of hk.private);
          priv = copied 64 hk.private;
          comment = hk.comment;
          pad = [];
        })
        refl).0

  written-priv :
      (hk : HostKey) → length hk.private ≡ private_key_size → (written hk).priv ≡ hk.private
  unfolding written key_to_write add_pad
  written-priv hk size = copied_all hk.private 64 size

  written-comment : (hk : HostKey) → (written hk).comment ≡ hk.comment
  unfolding written key_to_write add_pad
  written-comment hk = refl

  read_ed25519-written :
      (hk : HostKey) (keytype : Text) (check2 : ℕ)
      → length hk.private ≡ private_key_size
      → read_ed25519 crypto (record {
        check1 = hk.check;
        check2 = check2;
        keytype = keytype;
        rest = crypto.marshal_ed25519 (written hk);
      })
        ≡ ok hk
  unfolding read_ed25519
  read_ed25519-written hk keytype check2 size = ground (
    arith,
    wire.ed25519 (written hk),
    written-pad_ok hk,
    written-priv hk size,
    written-comment hk,
  )

  -- A host key with a private key of 64 bytes is read back from what is written of it.
  pub read-write :
      (hk : HostKey)
      → length hk.private ≡ private_key_size
      → read crypto (ok (write crypto hk)) ≡ ok hk
  read-write hk size =
      let key = written hk in
      let pk1 : KeyBody = record {
        check1 = hk.check;
        check2 = hk.check;
        keytype = crypto.key_algo_ed25519;
        rest = crypto.marshal_ed25519 key;
      } in
      let l : AuthBody = record {
        cipher_name = codes "none";
        kdf_name = codes "none";
        kdf_opts = [];
        num_keys = 1;
        pub_key = crypto.marshal_public crypto.key_algo_ed25519 key.public;
        priv_key_block = crypto.marshal_key_body pk1;
      } in
      let back = read_ed25519-written hk crypto.key_algo_ed25519 hk.check size in
      let body : read_body crypto (crypto.marshal_auth_body l) ≡ ok hk =
        unfold read_body in
        rw
          (
            wire.auth_body l,
            wire.key_body pk1,
            (==_iff hk.check hk.check).1 refl,
            text_eq_refl crypto.key_algo_ed25519,
          )
          back in
      let start : read crypto (ok (write crypto hk))
          ≡ read_body crypto (crypto.marshal_auth_body l) =
        unfold write written in read-auth_magic crypto (crypto.marshal_auth_body l) in
      start ∙ body
