-- ===== src/Local/Run/Printed.antt =====
-- What `stprov local run` prints (subcmd/local/run/run.go).
use stprov.Prelude.{
  Bool, List, [], ◌∷◌, ◌++◌, Text, codes, ok, Result-cases, inl, inr, ◌≡◌, refl, arith,
}
use stprov.Prelude.Int.{ℤ}
use stprov.Net.{Net}
use stprov.Crypto.{Crypto}
use stprov.Api.{CommitResponse}
use stprov.Api.Client.{Client, ClientConfig, Transport, new_client}
use stprov.Local.Run.{Options, FileRead, client_config, exchanges, main}

module _ {Remote : Type 0} (net : Net) (read_file : Text → FileRead) (crypto : Crypto)
    (t : Transport Remote) (now : ℤ) where
  abbrev pub lines_of : Options → CommitResponse → List Text
  lines_of o cr =
      (codes "publickey=" ++ cr.public_key)
      ∷ (codes "fingerprint=" ++ cr.fingerprint)
      ∷ (codes "hostname=" ++ cr.host_name)
      ∷ (codes "ip=" ++ o.ip)
      ∷ []

  -- A run that ends well: the exchanges of a client that was configured by the command line ended
  -- well, and what they were told is printed.
  pub record IsPrinted (o : Options) (s : crypto.Reader × Remote) (lines : List Text) : Type 0 where
    pub config : ClientConfig × Bool
    pub client : Client crypto
    pub response : CommitResponse
    pub is_config : client_config net read_file o ≡ ok config
    pub is_client : new_client crypto net config.0 ≡ ok client
    pub is_response : (exchanges crypto t now client config.1 s).0 ≡ ok response
    pub is_lines : lines ≡ lines_of o response
    pub same_state :
        (main net read_file crypto t now o s).1 ≡ (exchanges crypto t now client config.1 s).1

  pub main-IsPrinted :
      (o : Options) (s : crypto.Reader × Remote) (lines : List Text)
      → (main net read_file crypto t now o s).0 ≡ ok lines
      → IsPrinted o s lines
  unfolding main
  main-IsPrinted o s lines h = elim (Result-cases (client_config net read_file o)) [
    | inr (e, q) ↦ absurd (ground arith)
    | inl (config, q) ↦ elim (Result-cases (new_client crypto net config.0)) [
      | inr (e, q') ↦ absurd (ground arith)
      | inl (c, q') ↦ elim (Result-cases (exchanges crypto t now c config.1 s).0) [
        | inr (e, r) ↦ absurd (ground arith)
        | inl (cr, r) ↦ record {
          config = config;
          client = c;
          response = cr;
          is_config = q;
          is_client = q';
          is_response = r;
          is_lines = ground arith;
          same_state = rw (q, q', r) refl;
        }
      ]
    ]
  ]
