-- ===== src/Api/Exchange.antt =====
-- The client of internal/api/client.go connected to the server of internal/api/server.go and
-- handler.go.
use stprov.Prelude.{
  ℕ, false, Option, some, List, [], ◌∷◌, ◌++◌, Text, Bytes, length, Result, ok, Result-cases, inl,
  inr, ◌≡◌, refl, sym, ◌∙◌, ap, arith,
}
use stprov.Prelude.Int.{ℤ, is_negative}
use stprov.Prelude.Errors.{◌>>=◌}
use stprov.Secrets.{new_one_time_password, basic_auth_password, new_entropy, entropy_bytes}
use stprov.Api.{IsJson, AddDataRequest, endpoint_add_data, basic_auth_user, new_add_data_request}
use stprov.Api.Server.{
  Server, ServerConfig, Platform, Event, header, http_error, write, Request, World, new_server,
  method_post,
}
use stprov.Api.Handler.{Handler, handle_add_data, serve, serve_http, finish, path_of, status_ok}
use stprov.Api.Client.{
  Client, ClientConfig, Outgoing, Transport, new_client, add_data, do_post, do_request, send,
}
use stprov.Api.Access.{Inside, IsAllowed, serve_http-allowed}
use stprov.Api.Handling.{handle_add_data-accepts}
use stprov.Api.Invariant.{new_server-IsWellFormed}

-- The status and the body that net/http sends for what a handler wrote.
abbrev pub status_of : List Event → ℕ
status_of [] = status_ok
status_of (header k v ∷ es) = status_of es
status_of (http_error t code ∷ es) = code
status_of (write b ∷ es) = status_ok

abbrev pub body_of : List Event → Bytes
body_of [] = []
body_of (header k v ∷ es) = body_of es
body_of (http_error t code ∷ es) = t ++ body_of es
body_of (write b ∷ es) = b ++ body_of es

-- What lies between the two programs: the address that the server sees, the path of a URL, and
-- whether the URL is a valid one.
pub record Link : Type 0 where
  pub remote_addr : Text
  pub url_path : Text → Text
  pub new_request : Text → Text → Result (Unit {0})

abbrev add_data_handler : (p : Platform) → Handler p
add_data_handler p = record {
  endpoint = endpoint_add_data;
  method = method_post;
  handler_func = handle_add_data p;
}

module _ (p : Platform) (link : Link) where
  abbrev pub incoming : Outgoing → Request
  incoming o = record {
    method = o.method;
    remote_addr = link.remote_addr;
    basic_auth = some (o.user, o.password);
    body = ok o.body;
  }

  -- The world once the server has answered a request, and the answer.
  abbrev pub answered : Outgoing → World p → World p
  answered o w = serve p (link.url_path o.url) (incoming o) (record w { response = [] })

  abbrev pub connection : Transport (World p)
  connection = record {
    json = p.json;
    new_request = link.new_request;
    perform = λ o w. (
      ok (record {
        status = status_of (answered o w).response;
        body = ok (body_of (answered o w).response);
      }),
      answered o w,
    );
  }

  -- Both programs derive the same password from the same secret.
  same_password :
      (cfg : ServerConfig) (ccfg : ClientConfig) {s : Server p.crypto} {c : Client p.crypto}
      → new_server p.crypto p.net cfg ≡ ok s
      → new_client p.crypto p.net ccfg ≡ ok c
      → cfg.secret ≡ ccfg.secret
      → s.basic_auth_password ≡ c.basic_auth_password
  unfolding new_server new_client
  same_password cfg ccfg {s} {c} hs hc e =
      elim (Result-cases (new_one_time_password p.crypto cfg.secret)) [
        | inr (f, a) ↦ absurd (ground arith)
        | inl (otp, a) ↦ elim (Result-cases (basic_auth_password p.crypto otp)) [
          | inr (f, b) ↦ absurd (ground arith)
          | inl (password, b) ↦ ground arith
        ]
      ]

  add_data_served :
      (r : Request) (w : World p) (d : AddDataRequest) (path : Text)
      → path ≡ path_of p endpoint_add_data
      → IsAllowed p (add_data_handler p) r w
      → (do b ← r.body; p.json.unmarshal_add_data b) ≡ ok d
      → length d.entropy ≡ entropy_bytes
      → is_negative d.timestamp ≡ false
      → length w.server.entropy ≡ entropy_bytes
      → serve p path r w
        ≡ record w { server = record (w.server) { entropy = d.entropy; timestamp = d.timestamp } }
  add_data_served r w d path e a u size sign old =
      let routed : serve p path r w ≡ serve_http p (add_data_handler p) r w =
        unfold serve in rw e refl in
      let accepted = handle_add_data-accepts p r w d u size sign old in
      routed
      ∙ serve_http-allowed p (add_data_handler p) r w a
      ∙ ap (finish p) accepted
      ∙ (unfold finish in refl)

  module _ (is_json : IsJson p.json) (cfg : ServerConfig) (ccfg : ClientConfig)
      (c : Client p.crypto) (w : World p) (created : new_server p.crypto p.net cfg ≡ ok w.server)
      (connected : new_client p.crypto p.net ccfg ≡ ok c)
      (same_secret : cfg.secret ≡ ccfg.secret) where
    -- The client's address is in a network that the server allows.
    pub record IsReachable : Type 0 where
      pub host : Text
      pub ip : Bytes
      pub is_host : p.split_host_port link.remote_addr ≡ ok host
      pub is_ip : p.net.parse_ip host ≡ some ip
      pub inside : Inside ip w.server.local_cidr
      pub routed : link.url_path (c.server_url ++ endpoint_add_data) ≡ path_of p endpoint_add_data
      pub valid_url : link.new_request method_post (c.server_url ++ endpoint_add_data) ≡ ok tt

    -- What the client posts.
    abbrev posted : Bytes → Outgoing
    posted b = record {
      method = method_post;
      url = c.server_url ++ endpoint_add_data;
      user = basic_auth_user;
      password = c.basic_auth_password;
      body = b;
    }

    -- With the secret of the server and from an allowed network, the client's first exchange
    -- succeeds if its entropy can be drawn and the request can be built: the server then holds the
    -- client's 32 bytes of entropy and its time.
    pub add_data-delivers :
        (now : ℤ) (rand : p.crypto.Reader) (entropy b : Bytes)
        → IsReachable
        → (new_entropy p.crypto rand).0 ≡ ok entropy
        → length entropy ≡ entropy_bytes
        → is_negative now ≡ false
        → p.json.marshal_add_data (record { entropy = entropy; timestamp = now }) ≡ ok b
        → let result = add_data p.crypto connection c now (rand, w) in
          (result.0 ≡ ok (record { entropy = entropy; timestamp = now }))
          × (result.1.1.server ≡ record (w.server) { entropy = entropy; timestamp = now })
    add_data-delivers now rand entropy b reach drawn size sign marshalled =
        let d : AddDataRequest = record { entropy = entropy; timestamp = now } in
        let w₀ : World p = record w { response = [] } in
        let fresh : length w.server.entropy ≡ entropy_bytes =
          (new_server-IsWellFormed p.crypto p.net cfg created).entropy_size in
        let allowed : IsAllowed p (add_data_handler p) (incoming (posted b)) w₀ = record {
          same_method = refl;
          host = reach.host;
          ip = reach.ip;
          is_host = reach.is_host;
          is_ip = reach.is_ip;
          inside = reach.inside;
          credentials =
              ap {B = Option (Text × Text)} (λ t. some (basic_auth_user, t))
                (sym (same_password cfg ccfg created connected same_secret));
        } in
        let served =
          add_data_served (incoming (posted b)) w₀ d _ reach.routed allowed
            (is_json.add_data d marshalled) size sign fresh in
        unfold add_data new_add_data_request do_post do_request send in
        (ground (arith, served, reach.valid_url), ground (arith, served, reach.valid_url))
