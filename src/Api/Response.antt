-- ===== src/Api/Response.antt =====
-- No request reads what was written to the response before it (internal/api/handler.go).
use stprov.Prelude.{
  Bool, true, false, none, some, [], Text, text_eq, Result, ok, err, Bool-cases, inl, inr, ◌≡◌,
  refl, sym, ◌∙◌, ap, arith,
}
use stprov.Prelude.Errors.{◌>>=◌}
use stprov.Sb.{is_setup_mode}
use stprov.Api.{
  AddDataRequest, AddSecureBootRequest, endpoint_add_data, endpoint_add_secure_boot,
  endpoint_commit,
}
use stprov.Api.Server.{Platform, Request, World}
use stprov.Api.Handler.{
  Outcome, Handler, HandlerFunc, finish, path_of, serve_http, serve, handle_add_data, add_data_with,
  handle_add_secure_boot, add_secure_boot_in, add_secure_boot_with, deferred_reboot, handle_commit,
}
use stprov.Api.Access.{IsAllowed, serve_http-cases, serve_http-allowed}
use stprov.Api.Commit.{Committed, handle_commit-Committed, handle_commit-cases}

-- A world whose response is empty.
abbrev pub fresh : {p : Platform} → World p → World p
fresh w = record w { response = [] }

module _ (p : Platform) where
  -- A handler function does the same whatever is in the response.
  abbrev IsBlind : HandlerFunc p → Type 0
  IsBlind f = (r : Request) (w : World p) → fresh (f r w).1 ≡ fresh (f r (fresh w)).1

  add_data_with-fresh :
      (d : Result AddDataRequest) (w : World p)
      → fresh (add_data_with p d w).1 ≡ fresh (add_data_with p d (fresh w)).1
  unfolding add_data_with
  add_data_with-fresh (err e) w = refl
  add_data_with-fresh (ok d) w = ground arith

  add_data-IsBlind : IsBlind (handle_add_data p)
  unfolding handle_add_data
  add_data-IsBlind r w = add_data_with-fresh (do b ← r.body; p.json.unmarshal_add_data b) w

  secure_boot_with-fresh :
      (d : Result AddSecureBootRequest) (w : World p)
      → fresh (deferred_reboot p (add_secure_boot_with p d w)).1
        ≡ fresh (deferred_reboot p (add_secure_boot_with p d (fresh w))).1
  unfolding add_secure_boot_with deferred_reboot
  secure_boot_with-fresh (err e) w = refl
  secure_boot_with-fresh (ok d) w = ground arith

  secure_boot_in-fresh :
      (mode : Result Bool) (r : Request) (w : World p)
      → fresh (deferred_reboot p (add_secure_boot_in p mode r w)).1
        ≡ fresh (deferred_reboot p (add_secure_boot_in p mode r (fresh w))).1
  unfolding add_secure_boot_in
  secure_boot_in-fresh (ok false) r w = unfold deferred_reboot in refl
  secure_boot_in-fresh (ok true) r w = secure_boot_with-fresh _ w
  secure_boot_in-fresh (err e) r w = secure_boot_with-fresh _ w

  secure_boot-IsBlind : IsBlind (handle_add_secure_boot p)
  unfolding handle_add_secure_boot
  secure_boot-IsBlind r w = secure_boot_in-fresh (is_setup_mode p.efi w.nvram) r w

  Committed-fresh : (w : World p) → Committed p w → Committed p (fresh w)
  Committed-fresh w c = record {
    uds = c.uds;
    response = c.response;
    body = c.body;
    is_secret = c.is_secret;
    is_response = c.is_response;
    is_body = c.is_body;
    is_written = c.is_written;
  }

  Committed-any : (w : World p) → Committed p (fresh w) → Committed p w
  Committed-any w c = record {
    uds = c.uds;
    response = c.response;
    body = c.body;
    is_secret = c.is_secret;
    is_response = c.is_response;
    is_body = c.is_body;
    is_written = c.is_written;
  }

  commit_both :
      (r : Request) (w : World p)
      → Committed p w
      → fresh (handle_commit p r w).1 ≡ fresh (handle_commit p r (fresh w)).1
  unfolding Committed-fresh
  commit_both r w c =
      rw
        (
          handle_commit-Committed p r w c,
          handle_commit-Committed p r (fresh w) (Committed-fresh w c),
        )
        refl

  commit-IsBlind : IsBlind (handle_commit p)
  commit-IsBlind r w = elim (handle_commit-cases p r w) [
    | inl (c, q) ↦ commit_both r w c
    | inr (e, q) ↦ elim (handle_commit-cases p r (fresh w)) [
      | inl (c, q') ↦ commit_both r w (Committed-any w c)
      | inr (e', q') ↦ rw (q, q') refl
    ]
  ]

  finish-fresh : (o : Outcome × World p) → fresh (finish p o) ≡ fresh o.1
  unfolding finish
  finish-fresh ((code, none), w) = refl
  finish-fresh ((code, some e), w) = refl

  -- The checks of a request do not read the response.
  IsAllowed-same :
      (h : Handler p) (r : Request) (w v : World p)
      → v.server ≡ w.server
      → IsAllowed p h r w
      → IsAllowed p h r v
  IsAllowed-same h r w v same a = record {
    same_method = a.same_method;
    host = a.host;
    ip = a.ip;
    is_host = a.is_host;
    is_ip = a.is_ip;
    inside = rw same a.inside;
    credentials = rw same a.credentials;
  }

  serve_http_both :
      (h : Handler p) (r : Request) (w : World p)
      → IsBlind h.handler_func
      → IsAllowed p h r w
      → fresh (serve_http p h r w) ≡ fresh (serve_http p h r (fresh w))
  serve_http_both h r w blind a =
      rw
        (
          serve_http-allowed p h r w a,
          serve_http-allowed p h r (fresh w) (IsAllowed-same h r w (fresh w) refl a),
          finish-fresh (h.handler_func r w),
          finish-fresh (h.handler_func r (fresh w)),
        )
        (blind r w)

  serve_http-fresh :
      (h : Handler p) (r : Request) (w : World p)
      → IsBlind h.handler_func
      → fresh (serve_http p h r w) ≡ fresh (serve_http p h r (fresh w))
  serve_http-fresh h r w blind = elim (serve_http-cases p h r w) [
    | inl a ↦ serve_http_both h r w blind a
    | inr (events, refusal, e) ↦ elim (serve_http-cases p h r (fresh w)) [
      | inl a ↦ serve_http_both h r w blind (IsAllowed-same h r (fresh w) w refl a)
      | inr (events', refusal', e') ↦ rw (e, e') refl
    ]
  ]

  -- What a request makes of the world, but for the response, does not depend on the response.
  pub serve-fresh :
      (path : Text) (r : Request) (w : World p)
      → fresh (serve p path r w) ≡ fresh (serve p path r (fresh w))
  unfolding serve
  serve-fresh path r w = elim (Bool-cases (text_eq path (path_of p endpoint_add_data))) [
    | inl t ↦ rw t (serve_http-fresh _ r w add_data-IsBlind)
    | inr f ↦ elim (Bool-cases (text_eq path (path_of p endpoint_add_secure_boot))) [
      | inl t ↦ rw (f, t) (serve_http-fresh _ r w secure_boot-IsBlind)
      | inr g ↦ elim (Bool-cases (text_eq path (path_of p endpoint_commit))) [
        | inl t ↦ rw (f, g, t) (serve_http-fresh _ r w commit-IsBlind)
        | inr k ↦ rw (f, g, k) refl
      ]
    ]
  ]

  -- Worlds that differ in the response alone still do after a request.
  pub serve-congr :
      (path : Text) (r : Request) (w v : World p)
      → fresh w ≡ fresh v
      → fresh (serve p path r w) ≡ fresh (serve p path r v)
  serve-congr path r w v same =
      serve-fresh path r w ∙ ap (λ u. fresh (serve p path r u)) same ∙ sym (serve-fresh path r v)
