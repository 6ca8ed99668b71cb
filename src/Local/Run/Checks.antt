-- ===== src/Local/Run/Checks.antt =====
-- What `stprov local run` checks before it connects (subcmd/local/run/run.go).
use stprov.Prelude.{
  ℕ, ◌≤◌, Bool, true, false, ◌&&◌, ◌||◌, Option, none, some, [], Text, Bytes, ok, Result-cases, inl,
  inr, ◌≡◌, ◌≢◌, ◌⊎◌, refl, arith, not,
}
use stprov.Prelude.Int.{pos}
use stprov.Net.{Net}
use stprov.Api.Client.{ClientConfig}
use stprov.Local.Run.{
  Options, FileRead, KeyFiles, have_sb_opts, ok_sb_opts, is_some, bytes_of, connection_of,
  read_key_files, client_config,
}

connection_of-eq_ok :
    (net : Net) (o : Options) {ip : Bytes} {n : ℕ}
    → connection_of net o ≡ ok (ip, n)
    → (o.args ≡ [])
      × (o.otp ≢ [])
      × (net.parse_ip o.ip ≡ some ip)
      × (o.port ≡ pos n)
      × (1 ≤ n)
      × (n ≤ 65535)
unfolding connection_of
connection_of-eq_ok net o {ip} {n} h =
    (ground arith, ground arith, ground arith, ground arith, ground arith, ground arith)

keys_match_of :
    (pk kek db dbx : Option Bytes)
    → (is_some pk || is_some kek || is_some db || is_some dbx)
        && not (is_some pk && is_some kek && is_some db)
      ≡ false
    → ((is_some pk || is_some kek || is_some db || is_some dbx ≡ false)
        × (pk ≡ none)
        × (kek ≡ none)
        × (db ≡ none)
        × (dbx ≡ none))
      ⊎ ((is_some pk || is_some kek || is_some db || is_some dbx ≡ true)
          × (pk ≡ some (bytes_of pk))
          × (kek ≡ some (bytes_of kek))
          × (db ≡ some (bytes_of db)))
keys_match_of none none none none h = inl (refl, refl, refl, refl, refl)
keys_match_of (some pk) (some kek) (some db) dbx h = inr (refl, refl, refl, refl)
keys_match_of _ _ _ _ h = cc

module _ (net : Net) (read_file : Text → FileRead) where
  -- What a command line that is acted on is like.
  pub record IsComplete (o : Options) (cfg : ClientConfig) : Type 0 where
    pub no_args : o.args ≡ []
    pub has_otp : o.otp ≢ []
    pub port : ℕ
    pub is_port : o.port ≡ pos port
    pub port_low : 1 ≤ port
    pub port_high : port ≤ 65535
    pub is_ip : net.parse_ip o.ip ≡ some cfg.remote_ip
    pub remote_port : cfg.remote_port ≡ port
    pub secret : cfg.secret ≡ o.otp

  -- Of the Secure Boot files there are none, and no keys are sent, or PK, KEK and db at least.
  abbrev pub KeysMatch : KeyFiles → ClientConfig → Bool → Type 0
  KeysMatch k cfg sends =
      ((sends ≡ false) × (k.pk ≡ none) × (k.kek ≡ none) × (k.db ≡ none) × (k.dbx ≡ none))
      ⊎ ((sends ≡ true)
          × (k.pk ≡ some cfg.pk)
          × (k.kek ≡ some cfg.kek)
          × (k.db ≡ some cfg.db)
          × (bytes_of k.dbx ≡ cfg.dbx))

  keys_match :
      (k : KeyFiles)
      → have_sb_opts k && not (ok_sb_opts k) ≡ false
      → ((have_sb_opts k ≡ false) × (k.pk ≡ none) × (k.kek ≡ none) × (k.db ≡ none) × (k.dbx ≡ none))
        ⊎ ((have_sb_opts k ≡ true)
            × (k.pk ≡ some (bytes_of k.pk))
            × (k.kek ≡ some (bytes_of k.kek))
            × (k.db ≡ some (bytes_of k.db)))
  unfolding have_sb_opts ok_sb_opts
  keys_match k h = keys_match_of k.pk k.kek k.db k.dbx h

  -- A command line that passes the checks has no trailing argument, a password, an address, a port
  -- from 1 to 65535, and either no Secure Boot file or PK, KEK and db at least; these are what the
  -- client is configured with.
  pub client_config-IsComplete :
      (o : Options) (cfg : ClientConfig) (sends : Bool)
      → client_config net read_file o ≡ ok (cfg, sends)
      → IsComplete o cfg
        × (k : KeyFiles) × (read_key_files read_file o ≡ ok k)
        × KeysMatch k cfg sends
  unfolding client_config
  client_config-IsComplete o cfg sends h = elim (Result-cases (connection_of net o)) [
    | inr (e, a) ↦ absurd (ground arith)
    | inl ((ip, port), a) ↦
        let (no_args, has_otp, is_ip, is_port, low, high) = connection_of-eq_ok net o a in
        elim (Result-cases (read_key_files read_file o)) [
          | inr (e, b) ↦ absurd (ground arith)
          | inl (k, b) ↦
              let checked : have_sb_opts k && not (ok_sb_opts k) ≡ false = ground arith in
              (
                record {
                  no_args = no_args;
                  has_otp = has_otp;
                  port = port;
                  is_port = is_port;
                  port_low = low;
                  port_high = high;
                  is_ip = ground arith;
                  remote_port = ground arith;
                  secret = ground arith;
                },
                k,
                b,
                elim (keys_match k checked) [
                  | inl (f, a', b', c', d') ↦ inl (ground arith, a', b', c', d')
                  | inr (t, a', b', c') ↦
                      inr (ground arith, ground arith, ground arith, ground arith, ground arith)
                ],
              )
        ]
  ]
