-- ===== src/Api/Keeps.antt =====
-- A predicate that the response cannot change is kept by a request if every handler function keeps
-- it (internal/api/handler.go, server.go).
use stprov.Prelude.{
  Bool, true, false, Option, none, some, List, Text, Bytes, text_eq, Result, ok, err, Bool-cases,
  inl, inr,
}
use stprov.Prelude.{not, ◌||◌}
use stprov.Api.{basic_auth_user, endpoint_add_data, endpoint_add_secure_boot, endpoint_commit}
use stprov.Api.Server.{check_http_method, Platform, Event, Request, World}
use stprov.Api.Handler.{
  Outcome, Handler, in_networks, path_of, respond, verify_method, verify_network, verify_host,
  verify_ip, verify_credentials, authenticate_user, finish, serve_http, and_then, handle_add_data,
  handle_add_secure_boot, handle_commit, serve,
}

module _ (p : Platform) (P : World p → Type 0)
    (say : (events : List Event) (w : World p) → P w → P (respond p events w)) where
  and_then-keeps :
      (result : Bool × World p) (k : World p → World p)
      → P result.1
      → ((w : World p) → P w → P (k w))
      → P (and_then p result k)
  and_then-keeps (true, w) k h hk = hk w h
  and_then-keeps (false, w) k h hk = h

  verify_method-keeps : (m : Text) (r : Request) (w : World p) → P w → P (verify_method p m r w).1
  unfolding verify_method
  verify_method-keeps m r w h = elim (Bool-cases (text_eq m r.method)) [
    | inl t ↦ rw t h
    | inr f ↦ elim (Bool-cases (check_http_method r.method)) [
      | inl t ↦ rw (f, t) (say _ w h)
      | inr g ↦ rw (f, g) (say _ w h)
    ]
  ]

  verify_ip-keeps : (o : Option Bytes) (w : World p) → P w → P (verify_ip p o w).1
  unfolding verify_ip
  verify_ip-keeps none w h = say _ w h
  verify_ip-keeps (some ip) w h = elim (Bool-cases (in_networks w.server.local_cidr ip)) [
    | inl t ↦ rw t h
    | inr f ↦ rw f (say _ w h)
  ]

  verify_host-keeps : (o : Result Text) (w : World p) → P w → P (verify_host p o w).1
  unfolding verify_host
  verify_host-keeps (err e) w h = say _ w h
  verify_host-keeps (ok host) w h = verify_ip-keeps (p.net.parse_ip host) w h

  verify_credentials-keeps :
      (o : Option (Text × Text)) (w : World p) → P w → P (verify_credentials p o w).1
  unfolding verify_credentials
  verify_credentials-keeps none w h = say _ w h
  verify_credentials-keeps (some (user, password)) w h =
      elim (Bool-cases (
        not (text_eq user basic_auth_user)
        || not (text_eq password w.server.basic_auth_password))) [
          | inl t ↦ rw t (say _ w h)
          | inr f ↦ rw f h
        ]

  finish-keeps : (o : Outcome × World p) → P o.1 → P (finish p o)
  unfolding finish
  finish-keeps ((code, none), w) h = h
  finish-keeps ((code, some e), w) h = say _ w h

  pub serve_http-keeps :
      (h : Handler p)
      → ((r : Request) (w : World p) → P w → P (h.handler_func r w).1)
      → (r : Request) (w : World p) → P w
      → P (serve_http p h r w)
  unfolding serve_http verify_network authenticate_user
  serve_http-keeps h keep r w hw =
      and_then-keeps (verify_method p h.method r w) _ (verify_method-keeps h.method r w hw) λ w₁ h₁.
        and_then-keeps (verify_host p (p.split_host_port r.remote_addr) w₁) _
          (verify_host-keeps (p.split_host_port r.remote_addr) w₁ h₁)
          λ w₂ h₂.
            and_then-keeps (verify_credentials p r.basic_auth w₂) _
              (verify_credentials-keeps r.basic_auth w₂ h₂)
              λ w₃ h₃. finish-keeps (h.handler_func r w₃) (keep r w₃ h₃)

  module _ (add_data : (r : Request) (w : World p) → P w → P (handle_add_data p r w).1)
      (add_secure_boot : (r : Request) (w : World p) → P w → P (handle_add_secure_boot p r w).1)
      (commit : (r : Request) (w : World p) → P w → P (handle_commit p r w).1) where
    -- What the response does not touch and every handler function keeps, the server keeps.
    pub serve-keeps : (path : Text) (r : Request) (w : World p) → P w → P (serve p path r w)
    unfolding serve
    serve-keeps path r w h = elim (Bool-cases (text_eq path (path_of p endpoint_add_data))) [
      | inl t ↦ rw t (serve_http-keeps _ add_data r w h)
      | inr f ↦ elim (Bool-cases (text_eq path (path_of p endpoint_add_secure_boot))) [
        | inl t ↦ rw (f, t) (serve_http-keeps _ add_secure_boot r w h)
        | inr g ↦ elim (Bool-cases (text_eq path (path_of p endpoint_commit))) [
          | inl t ↦ rw (f, g, t) (serve_http-keeps _ commit r w h)
          | inr k ↦ rw (f, g, k) (say _ w h)
        ]
      ]
    ]
