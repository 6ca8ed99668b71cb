-- ===== src/Api/Provisioning.antt =====
-- What stprov remote promises of its server, without HTTP, JSON or the order of the checks: the
-- abstract machine of internal/api.
use stprov.Prelude.{
  ℕ, ◌+◌, Option, none, some, List, [], ◌∷◌, Text, Bytes, length, replicate, All, ok, false, ◌⊎◌,
  inl, inr, ◌≡◌, refl, ◌∙◌, arith, ◌≤◌,
}
use stprov.Prelude.Int.{ℤ, pos, is_negative}
use stprov.Net.{IpNet}
use stprov.Crypto.{Crypto}
use stprov.Secrets.{entropy_bytes, new_unique_device_secret}
use stprov.Api.{basic_auth_user, endpoint_add_data, endpoint_commit}
use stprov.Api.Handler.{path_of}
use stprov.Api.Access.{Inside}
use stprov.Api.Server.{Platform, Request}

-- What has been contributed, the unique device secret, and how many commits were signalled.
pub record Provisioning : Type 0 where
  pub entropy : Bytes
  pub timestamp : ℤ
  pub secret : Option Bytes
  pub commits : ℕ

abbrev pub nothing : Provisioning
nothing = record {
  entropy = replicate entropy_bytes 0;
  timestamp = pos 0;
  secret = none;
  commits = 0;
}

-- Who may take part: from an address in one of the networks, with the password.
pub record IsClient (p : Platform) (nets : List IpNet) (password : Text) (r : Request)
    : Type 0 where
  pub host : Text
  pub ip : Bytes
  pub is_host : p.split_host_port r.remote_addr ≡ ok host
  pub is_ip : p.net.parse_ip host ≡ some ip
  pub inside : Inside ip nets
  pub credentials : r.basic_auth ≡ some (basic_auth_user, password)

-- A secret that was mixed from this entropy, with some randomness.
abbrev pub IsMixed : Crypto → Bytes → Bytes → Type 0
IsMixed crypto entropy uds =
    (rand : crypto.Reader) × ((new_unique_device_secret crypto entropy rand).0 ≡ ok uds)

-- One request, by a client to an endpoint or not.
pub data Step (crypto : Crypto) (Client : Text → Type 0) (a : Provisioning)
    : Provisioning → Type 0 where
  rest : Step crypto Client a a
  contribute :
      Client endpoint_add_data
      → (entropy : Bytes) (timestamp : ℤ) → length entropy ≡ entropy_bytes
      → is_negative timestamp ≡ false
      → Step crypto Client a (record a { entropy = entropy; timestamp = timestamp })
  commit :
      Client endpoint_commit
      → (uds : Bytes) → IsMixed crypto a.entropy uds
      → Step crypto Client a (record a { secret = some uds; commits = a.commits + 1 })

pub Step-size :
    {crypto : Crypto} {Client : Text → Type 0} {a b : Provisioning}
    → Step crypto Client a b
    → length a.entropy ≡ entropy_bytes
    → length b.entropy ≡ entropy_bytes
Step-size rest size = size
Step-size (contribute client entropy timestamp same sign) size = same
Step-size (commit client uds m) size = size

Step-other :
    {crypto : Crypto} {Client : Text → Type 0} {a b : Provisioning}
    → ((endpoint : Text) → ¬ Client endpoint)
    → Step crypto Client a b
    → b ≡ a
Step-other other rest = refl
Step-other other (contribute client entropy timestamp same sign) = absurd (other _ client)
Step-other other (commit client uds m) = absurd (other _ client)

Step-commits :
    {crypto : Crypto} {Client : Text → Type 0} {a b : Provisioning}
    → Step crypto Client a b
    → a.commits ≤ b.commits
Step-commits rest = omega arith
Step-commits (contribute client entropy timestamp same sign) = omega arith
Step-commits (commit client uds m) = omega arith

-- A secret that is there after a request was there before, or a client asked for it.
pub Step-secret :
    {crypto : Crypto} {Client : Text → Type 0} {a b : Provisioning} (uds : Bytes)
    → Step crypto Client a b
    → b.secret ≡ some uds
    → (a.secret ≡ some uds) ⊎ (Client endpoint_commit × IsMixed crypto a.entropy uds)
Step-secret uds rest h = inl h
Step-secret uds (contribute client entropy timestamp same sign) h = inl h
Step-secret uds (commit client made m) h =
    let same : made ≡ uds = ground arith in inr (client, rw (← same) m)

module _ (p : Platform) (nets : List IpNet) (password : Text) where
  -- The request is a client's, to that endpoint.
  abbrev pub Asks : Text → Request → Text → Type 0
  Asks path r endpoint = (path ≡ path_of p endpoint) × IsClient p nets password r

  -- Requests one after the other.
  pub data Trace : List (Text × Request) → Provisioning → Provisioning → Type 0 where
    finished : {a : Provisioning} → Trace [] a a
    served :
        {a b c : Provisioning} (path : Text) (r : Request) (rs : List (Text × Request))
        → Step p.crypto (Asks path r) a b
        → Trace rs b c
        → Trace ((path, r) ∷ rs) a c

  -- Requests by others do nothing.
  pub Trace-others :
      {a b : Provisioning} {rs : List (Text × Request)}
      → Trace rs a b
      → All (λ (q : Text × Request). ¬ IsClient p nets password q.1) rs
      → b ≡ a
  Trace-others finished others = refl
  Trace-others (served path r rs step trace) (other, others) =
      Trace-others trace others ∙ Step-other (λ endpoint asks. other asks.1) step

  pub Trace-commits :
      {a b : Provisioning} {rs : List (Text × Request)} → Trace rs a b → a.commits ≤ b.commits
  Trace-commits finished = omega arith
  Trace-commits (served path r rs step trace) =
      omega (arith, Step-commits step, Trace-commits trace)

  pub Trace-size :
      {a b : Provisioning} {rs : List (Text × Request)}
      → Trace rs a b
      → length a.entropy ≡ entropy_bytes
      → length b.entropy ≡ entropy_bytes
  Trace-size finished size = size
  Trace-size (served path r rs step trace) size = Trace-size trace (Step-size step size)
