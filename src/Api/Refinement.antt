-- ===== src/Api/Refinement.antt =====
-- The server of internal/api is an implementation of the abstract machine.
use stprov.Prelude.{
  ◌++◌, ap, ◌⊎◌, text_eq_sound, none, some, List, [], ◌∷◌, Text, Bytes, length, text_eq, Result, ok,
  err, Bool-cases, All, inl, inr, ◌≡◌, refl, sym, ◌∙◌, arith, ◌==◌, ==_iff,
}
use stprov.Prelude.Errors.{◌>>=◌}
use mathlib.Core.Path.{subst}
use stprov.Prelude.Int.{is_negative}
use stprov.Crypto.{Crypto}
use stprov.Net.{Net}
use stprov.Sb.{is_setup_mode}
use stprov.Secrets.{entropy_bytes}
use stprov.Api.{AddDataRequest, endpoint_add_data, endpoint_add_secure_boot, endpoint_commit}
use stprov.Api.Server.{Server, ServerConfig, Platform, Request, World, new_server}
use stprov.Api.Handler.{
  Outcome, Handler, path_of, finish, handle_add_data, add_data_with, handle_add_secure_boot,
  handle_commit, serve_http, serve,
}
use stprov.Api.Access.{serve_http-cases, serve_http-allowed}
use stprov.Api.Handling.{copy_all}
use stprov.Api.Commit.{handle_commit-cases}
use stprov.Api.Frame.{fixed-serve}
use stprov.Api.Invariant.{serve_all, IsWellFormed, new_server-IsWellFormed, server-secure_boot}
use stprov.Api.Provisioning.{
  Provisioning, nothing, IsClient, Step, Step-size, rest, contribute, commit, Trace, Trace-others,
  Asks, IsMixed, Step-secret, finished, served,
}

-- What the server has of the abstract machine.
abbrev pub view : {crypto : Crypto} → Server crypto → Provisioning
view s = record { entropy = s.entropy; timestamp = s.timestamp; secret = s.uds; commits = s.commit }

module _ (p : Platform) where
  abbrev ClientOf : Request → World p → Type 0
  ClientOf r w = IsClient p w.server.local_cidr w.server.basic_auth_password r

  abbrev Steps : Text → Request → World p → World p → Type 0
  Steps path r w v =
      Step p.crypto (Asks p w.server.local_cidr w.server.basic_auth_password path r) (view w.server)
        (view v.server)

  server-finish : (o : Outcome × World p) → (finish p o).server ≡ o.1.server
  unfolding finish
  server-finish ((code, none), w) = refl
  server-finish ((code, some e), w) = refl

  serve_http-Steps :
      (path : Text) (h : Handler p) (r : Request) (w : World p)
      → (ClientOf r w → Steps path r w (h.handler_func r w).1)
      → Steps path r w (serve_http p h r w)
  serve_http-Steps path h r w step = elim (serve_http-cases p h r w) [
    | inr (events, refusal, e) ↦ rw e rest
    | inl a ↦
        let client : ClientOf r w = record {
          host = a.host;
          ip = a.ip;
          is_host = a.is_host;
          is_ip = a.is_ip;
          inside = a.inside;
          credentials = a.credentials;
        } in
        rw (serve_http-allowed p h r w a, server-finish (h.handler_func r w)) (step client)
  ]

  add_data_with-Steps :
      (path : Text) (d : Result AddDataRequest) (r : Request) (w : World p)
      → length w.server.entropy ≡ entropy_bytes
      → path ≡ path_of p endpoint_add_data
      → ClientOf r w
      → Steps path r w (add_data_with p d w).1
  unfolding add_data_with
  add_data_with-Steps path (err e) r w size at client = rest
  add_data_with-Steps path (ok d) r w size at client =
      elim (Bool-cases (length d.entropy == entropy_bytes)) [
        | inr f ↦ rw f rest
        | inl t ↦ elim (Bool-cases (is_negative d.timestamp)) [
          | inl n ↦ rw (t, n) rest
          | inr n ↦
              let same = (==_iff (length d.entropy) entropy_bytes).0 t in
              rw (t, n, copy_all w.server.entropy d.entropy (size ∙ sym same))
                (contribute (at, client) d.entropy d.timestamp same n)
        ]
      ]

  handle_commit-Steps :
      (path : Text) (r : Request) (w : World p)
      → path ≡ path_of p endpoint_commit
      → ClientOf r w
      → Steps path r w (handle_commit p r w).1
  handle_commit-Steps path r w at client = elim (handle_commit-cases p r w) [
    | inl (c, q) ↦ rw q (commit (at, client) c.uds (w.rand, c.is_secret))
    | inr (e, q) ↦ rw q rest
  ]

  pub serve-Steps :
      (path : Text) (r : Request) (w : World p)
      → length w.server.entropy ≡ entropy_bytes
      → Steps path r w (serve p path r w)
  unfolding serve
  serve-Steps path r w size = elim (Bool-cases (text_eq path (path_of p endpoint_add_data))) [
    | inl t ↦ rw t (
        serve_http-Steps path _ r w λ client.
          unfold handle_add_data in
          add_data_with-Steps path (do b ← r.body; p.json.unmarshal_add_data b) r w size
            (text_eq_sound path (path_of p endpoint_add_data) t) client)
    | inr f ↦ elim (Bool-cases (text_eq path (path_of p endpoint_add_secure_boot))) [
      | inl t ↦
          rw (f, t)
            (serve_http-Steps path _ r w λ client.
              unfold handle_add_secure_boot in
              rw (server-secure_boot p (is_setup_mode p.efi w.nvram) r w) rest)
      | inr g ↦ elim (Bool-cases (text_eq path (path_of p endpoint_commit))) [
        | inl t ↦
            rw (f, g, t)
              (serve_http-Steps path _ r w
                (handle_commit-Steps path r w (text_eq_sound path (path_of p endpoint_commit) t)))
        | inr k ↦ rw (f, g, k) rest
      ]
    ]
  ]

  pub serve_all-Trace :
      (rs : List (Text × Request)) (w : World p)
      → length w.server.entropy ≡ entropy_bytes
      → Trace p w.server.local_cidr w.server.basic_auth_password rs
          (view w.server)
          (view (serve_all p rs w).server)
  unfolding serve_all
  serve_all-Trace [] w size = finished
  serve_all-Trace ((path, r) ∷ rs) w size =
      let step = serve-Steps path r w size in
      let next = serve p path r w in
      let trace = serve_all-Trace rs next (Step-size step size) in
      served path r rs step (
        subst
          (λ (f : ServerConfig × Text × p.crypto.KeyPair).
            Trace p f.0.local_cidr f.1 rs (view next.server) (view (serve_all p rs next).server))
          (fixed-serve p path r w) trace)

  pub new_server-view :
      (net : Net) (cfg : ServerConfig) {s : Server p.crypto}
      → new_server p.crypto net cfg ≡ ok s
      → (view s ≡ nothing) × (s.config ≡ cfg)
  unfolding new_server
  new_server-view net cfg h = (ground arith, ground arith)

  -- Whatever requests a server that was just created is sent, what becomes of its entropy, time,
  -- secret and commits is a run of the abstract machine from nothing, in which only requests from
  -- the configured networks that carry the password take steps, each to the endpoint of its step.
  pub created-Trace :
      (net : Net) (cfg : ServerConfig) (rs : List (Text × Request)) (w : World p)
      → new_server p.crypto net cfg ≡ ok w.server
      → Trace p cfg.local_cidr w.server.basic_auth_password rs nothing
          (view (serve_all p rs w).server)
  created-Trace net cfg rs w h =
      let (initial, same) = new_server-view net cfg h in
      let trace =
        serve_all-Trace rs w
          (IsWellFormed.entropy_size (new_server-IsWellFormed p.crypto net cfg h)) in
      rw (← initial, ← same) trace

  -- A server that was just created and is sent no request by a client stays as it was created: no
  -- entropy, no time, no secret, no commit.
  pub created-others :
      (net : Net) (cfg : ServerConfig) (rs : List (Text × Request)) (w : World p)
      → new_server p.crypto net cfg ≡ ok w.server
      → All
          (λ (q : Text × Request). ¬ IsClient p cfg.local_cidr w.server.basic_auth_password q.1)
          rs
      → view (serve_all p rs w).server ≡ nothing
  created-others net cfg rs w h others =
      Trace-others p cfg.local_cidr w.server.basic_auth_password (created-Trace net cfg rs w h)
        others

  -- One of the requests asked for the secret: it was a client's, to the endpoint of the commit, at a
  -- time when the server held 32 bytes of entropy, and the server then had the secret, which was mixed
  -- from that entropy.
  pub record IsAsked (rs : List (Text × Request)) (w : World p) (uds : Bytes) : Type 0 where
    pub before : List (Text × Request)
    pub path : Text
    pub request : Request
    pub after : List (Text × Request)
    pub is_one : rs ≡ before ++ (path, request) ∷ after
    pub asks : Asks p w.server.local_cidr w.server.basic_auth_password path request endpoint_commit
    pub size : length (serve_all p before w).server.entropy ≡ entropy_bytes
    pub mixed : IsMixed p.crypto (serve_all p before w).server.entropy uds
    pub has_secret : (serve p path request (serve_all p before w)).server.uds ≡ some uds

  -- The same request, with another in front.
  IsAsked-cons :
      (path : Text) (r : Request) (rs : List (Text × Request)) (w : World p) (uds : Bytes)
      → IsAsked rs (serve p path r w) uds
      → IsAsked ((path, r) ∷ rs) w uds
  unfolding serve_all
  IsAsked-cons path r rs w uds a = record {
    before = (path, r) ∷ a.before;
    path = a.path;
    request = a.request;
    after = a.after;
    is_one = ap (λ l. (path, r) ∷ l) a.is_one;
    asks =
        subst
          (λ (f : ServerConfig × Text × p.crypto.KeyPair).
            Asks p f.0.local_cidr f.1 a.path a.request endpoint_commit)
          (fixed-serve p path r w) a.asks;
    size = a.size;
    mixed = a.mixed;
    has_secret = a.has_secret;
  }

  serve_all-IsAsked :
      (rs : List (Text × Request)) (w : World p) (uds : Bytes)
      → length w.server.entropy ≡ entropy_bytes
      → (serve_all p rs w).server.uds ≡ some uds
      → (w.server.uds ≡ some uds) ⊎ IsAsked rs w uds
  unfolding serve_all
  serve_all-IsAsked [] w uds size h = inl h
  serve_all-IsAsked ((path, r) ∷ rs) w uds size h =
      let step = serve-Steps path r w size in
      elim (serve_all-IsAsked rs (serve p path r w) uds (Step-size step size) h) [
        | inr later ↦ inr (IsAsked-cons path r rs w uds later)
        | inl now ↦ elim (Step-secret uds step now) [
          | inl before ↦ inl before
          | inr (asks, mixed) ↦ inr (record {
            before = [];
            path = path;
            request = r;
            after = rs;
            is_one = refl;
            asks = asks;
            size = size;
            mixed = mixed;
            has_secret = now;
          })
        ]
      ]

  -- A secret that a server, created and sent any requests, has in the end was asked for by one of the
  -- requests, which came from a client, with the password and from the configured networks, to the
  -- endpoint of the commit; it was mixed from the 32 bytes of entropy that the server held then.
  pub created-IsAsked :
      (net : Net) (cfg : ServerConfig) (rs : List (Text × Request)) (w : World p) (uds : Bytes)
      → new_server p.crypto net cfg ≡ ok w.server
      → (serve_all p rs w).server.uds ≡ some uds
      → IsAsked rs w uds × (w.server.config ≡ cfg)
  created-IsAsked net cfg rs w uds h secret =
      let (initial, same) = new_server-view net cfg h in
      let size = IsWellFormed.entropy_size (new_server-IsWellFormed p.crypto net cfg h) in
      let fresh : w.server.uds ≡ none = ap (λ (v : Provisioning). v.secret) initial in
      elim (serve_all-IsAsked rs w uds size secret) [
        | inl before ↦ absurd (ground arith)
        | inr asked ↦ (asked, same)
      ]
