-- ===== src/Api/Access.antt =====
-- Who may reach a handler function: the checks of `ServeHTTP` (internal/api/handler.go).
use stprov.Prelude.{
  Bool, true, false, Option, none, some, List, [], ◌∷◌, Text, Bytes, codes, text_eq, text_eq_refl,
  text_eq_sound, ok, Result-cases, Option-cases, Bool-cases, ◌⊎◌, inl, inr, ◌≡◌, refl, arith,
}
use stprov.Net.{IpNet, net_contains}
use stprov.Api.{basic_auth_user}
use stprov.Api.Server.{check_http_method, Platform, Event, header, http_error, Request, World}
use stprov.Api.Handler.{
  Handler, in_networks, respond, verify_method, verify_network, verify_host, verify_ip,
  verify_credentials, authenticate_user, finish, serve_http,
}

-- Some network of the list contains the address.
abbrev pub Inside : Bytes → List IpNet → Type 0
Inside ip [] = ⊥
Inside ip (n ∷ ns) = (net_contains n ip ≡ true) ⊎ Inside ip ns

in_networks_sound : (ns : List IpNet) (ip : Bytes) → in_networks ns ip ≡ true → Inside ip ns
unfolding in_networks
in_networks_sound [] ip h = cc
in_networks_sound (n ∷ ns) ip h = elim (Bool-cases (net_contains n ip)) [
  | inl t ↦ inl t
  | inr f ↦ inr (in_networks_sound ns ip (rw f at h))
]

in_networks_complete : (ns : List IpNet) (ip : Bytes) → Inside ip ns → in_networks ns ip ≡ true
unfolding in_networks
in_networks_complete [] ip h = absurd h
in_networks_complete (n ∷ ns) ip (inl t) = rw t
in_networks_complete (n ∷ ns) ip (inr h) = ground (arith, in_networks_complete ns ip h)

-- The response of a refused request is one error, with the allowed method in front of a 405.
pub data IsRefusal (method : Text) : List Event → Type 0 where
  bad_method : IsRefusal method (http_error (codes "Bad Request") 400 ∷ [])
  wrong_method :
      IsRefusal method
        (header (codes "Allow") method ∷ http_error (codes "Method Not Allowed") 405 ∷ [])
  bad_address : (t : Text) → IsRefusal method (http_error t 500 ∷ [])
  forbidden : (t : Text) → IsRefusal method (http_error t 403 ∷ [])

module _ (p : Platform) where
  -- The request has the handler's method, comes from an address in an allowed network, and carries
  -- the credentials that were derived from the one-time password.
  pub record IsAllowed (h : Handler p) (r : Request) (w : World p) : Type 0 where
    pub same_method : h.method ≡ r.method
    pub host : Text
    pub ip : Bytes
    pub is_host : p.split_host_port r.remote_addr ≡ ok host
    pub is_ip : p.net.parse_ip host ≡ some ip
    pub inside : Inside ip w.server.local_cidr
    pub credentials : r.basic_auth ≡ some (basic_auth_user, w.server.basic_auth_password)

  verify_method-same :
      (m : Text) (r : Request) (w : World p) → m ≡ r.method → verify_method p m r w ≡ (true, w)
  unfolding verify_method
  verify_method-same m r w e = rw (e, text_eq_refl r.method)

  verify_network-inside :
      (r : Request) (w : World p) (host : Text) (ip : Bytes)
      → p.split_host_port r.remote_addr ≡ ok host
      → p.net.parse_ip host ≡ some ip
      → in_networks w.server.local_cidr ip ≡ true
      → verify_network p r w ≡ (true, w)
  verify_network-inside r w host ip a b c = unfold verify_network in ground arith

  authenticate_user-credentials :
      (r : Request) (w : World p)
      → r.basic_auth ≡ some (basic_auth_user, w.server.basic_auth_password)
      → authenticate_user p r w ≡ (true, w)
  unfolding authenticate_user
  authenticate_user-credentials r w e = rw (e, text_eq_refl w.server.basic_auth_password)

  -- An allowed request is handed to the handler function, whose outcome ends the response.
  pub serve_http-allowed :
      (h : Handler p) (r : Request) (w : World p)
      → IsAllowed h r w
      → serve_http p h r w ≡ finish p (h.handler_func r w)
  unfolding serve_http
  serve_http-allowed h r w a = rw (
    verify_method-same h.method r w a.same_method,
    verify_network-inside r w a.host a.ip a.is_host a.is_ip
        (in_networks_complete w.server.local_cidr a.ip a.inside),
    authenticate_user-credentials r w a.credentials,
  )

  -- A check of a request refuses it, and writes one error to the response.
  abbrev Refuses : Text → Bool × World p → World p → Type 0
  Refuses m result w =
      (events : List Event) × IsRefusal m events × (result ≡ (false, respond p events w))

  verify_method-cases :
      (m : Text) (r : Request) (w : World p) → (m ≡ r.method) ⊎ Refuses m (verify_method p m r w) w
  unfolding verify_method
  verify_method-cases m r w = elim (Bool-cases (text_eq m r.method)) [
    | inl t ↦ inl (text_eq_sound m r.method t)
    | inr f ↦ elim (Bool-cases (check_http_method r.method)) [
      | inl t ↦ inr (_, wrong_method, rw (f, t))
      | inr g ↦ inr (_, bad_method, rw (f, g))
    ]
  ]

  abbrev FromInside : Request → World p → Type 0
  FromInside r w =
      (host : Text) × (ip : Bytes) × (p.split_host_port r.remote_addr ≡ ok host)
      × (p.net.parse_ip host ≡ some ip)
      × Inside ip w.server.local_cidr

  verify_network-cases :
      (m : Text) (r : Request) (w : World p) → FromInside r w ⊎ Refuses m (verify_network p r w) w
  unfolding verify_network
  verify_network-cases m r w = elim (Result-cases (p.split_host_port r.remote_addr)) [
    | inr (e, q) ↦ inr (_, bad_address (codes "Malformed address:port format"), rw (q, verify_host))
    | inl (host, q) ↦ elim (Option-cases (p.net.parse_ip host)) [
      | inl none_ip ↦ inr (
        _,
        bad_address (codes "Hostname must be an IP address"),
        rw (q, verify_host, none_ip, verify_ip),
      )
      | inr (ip, i) ↦ elim (Bool-cases (in_networks w.server.local_cidr ip)) [
        | inl t ↦ inl (host, ip, q, i, in_networks_sound w.server.local_cidr ip t)
        | inr f ↦
            inr (_, forbidden (codes "Invalid IP address"), rw (q, verify_host, i, verify_ip, f))
      ]
    ]
  ]

  verify_credentials-cases :
      (m : Text) (c : Option (Text × Text)) (w : World p)
      → (c ≡ some (basic_auth_user, w.server.basic_auth_password))
        ⊎ Refuses m (verify_credentials p c w) w
  unfolding verify_credentials
  verify_credentials-cases m none w =
      inr (_, forbidden (codes "BasicAuth header is required"), refl)
  verify_credentials-cases m (some (user, password)) w =
      elim (Bool-cases (text_eq user basic_auth_user)) [
        | inr f ↦ inr (_, forbidden (codes "BasicAuth credentials were insufficient"), rw f)
        | inl t ↦ elim (Bool-cases (text_eq password w.server.basic_auth_password)) [
          | inr f ↦ inr (_, forbidden (codes "BasicAuth credentials were insufficient"), rw (t, f))
          | inl u ↦ inl (
              cc (
                text_eq_sound user basic_auth_user t,
                text_eq_sound password w.server.basic_auth_password u,
              ))
        ]
      ]

  -- A request is allowed, or refused with one error.
  pub serve_http-cases :
      (h : Handler p) (r : Request) (w : World p)
      → IsAllowed h r w
        ⊎ ((events : List Event) × IsRefusal h.method events
            × (serve_http p h r w ≡ respond p events w))
  unfolding serve_http
  serve_http-cases h r w = elim (verify_method-cases h.method r w) [
    | inr (events, refusal, e) ↦ inr (events, refusal, rw e)
    | inl same ↦
        let method = verify_method-same h.method r w same in
        elim (verify_network-cases h.method r w) [
          | inr (events, refusal, e) ↦ inr (events, refusal, rw (method, e))
          | inl (host, ip, is_host, is_ip, inside) ↦
              let network =
                verify_network-inside r w host ip is_host is_ip
                  (in_networks_complete w.server.local_cidr ip inside) in
              elim (verify_credentials-cases h.method r.basic_auth w) [
                | inr (events, refusal, e) ↦
                    inr (events, refusal, rw (method, network) (unfold authenticate_user in rw e))
                | inl credentials ↦ inl (record {
                  same_method = same;
                  host = host;
                  ip = ip;
                  is_host = is_host;
                  is_ip = is_ip;
                  inside = inside;
                  credentials = credentials;
                })
              ]
        ]
  ]

  -- A request that is not allowed changes nothing but the response, which gets one error:
  -- 400, 405 with the method that is allowed, 500 for its address, or 403.
  pub serve_http-refused :
      (h : Handler p) (r : Request) (w : World p)
      → ¬ IsAllowed h r w
      → (events : List Event) × IsRefusal h.method events
        × (serve_http p h r w ≡ respond p events w)
  serve_http-refused h r w no_access = elim (serve_http-cases h r w) [
    | inl allowed ↦ absurd (no_access allowed)
    | inr refused ↦ refused
  ]
