-- ===== src/Api/Handler.antt =====
-- internal/api/handler.go: the checks of every request and the three handlers.
use stprov.Prelude.{
  ℕ, ◌+◌, Bool, true, false, ◌||◌, Option, none, some, List, [], ◌∷◌, ◌++◌, Text, Bytes, codes,
  length, take, drop, decimal, text_eq, ◌==◌, not, if◌then◌else◌, Error, msg, wrap, Result, ok, err,
}
use stprov.Prelude.Int.{is_negative, int_decimal}
use stprov.Prelude.Errors.{◌>>=◌}
use stprov.Net.{IpNet, net_contains}
use stprov.Sb.{is_setup_mode, provision, request_reboot_into_uefi_menu}
use stprov.Secrets.{entropy_bytes, new_unique_device_secret}
use stprov.Api.{
  AddDataRequest, AddSecureBootRequest, CommitResponse, basic_auth_user, protocol,
  endpoint_add_data, endpoint_add_secure_boot, endpoint_commit, check, new_commit_response,
}
use stprov.Api.Server.{
  Platform, Event, header, http_error, write, Request, World, method_get, method_post,
  check_http_method,
}

abbrev pub status_ok : ℕ
status_ok = 200

abbrev pub status_bad_request : ℕ
status_bad_request = 400

abbrev pub status_forbidden : ℕ
status_forbidden = 403

abbrev pub status_method_not_allowed : ℕ
status_method_not_allowed = 405

abbrev pub status_internal_server_error : ℕ
status_internal_server_error = 500

-- http.StatusText, for the codes that the handlers use
unfoldable pub status_text : ℕ → Text
status_text code =
    if code == status_ok
    then codes "OK"
    else if code == status_bad_request
    then codes "Bad Request"
    else if code == status_forbidden
    then codes "Forbidden"
    else if code == status_method_not_allowed
    then codes "Method Not Allowed"
    else if code == status_internal_server_error
    then codes "Internal Server Error"
    else []

-- The loop of `verifyNetwork` over the allowed networks.
unfoldable pub in_networks : List IpNet → Bytes → Bool
in_networks [] ip = false
in_networks (n ∷ ns) ip = net_contains n ip || in_networks ns ip

-- copy(dst, src)
unfoldable pub copy : Bytes → Bytes → Bytes
copy dst src = take (length dst) src ++ drop (length src) dst

-- What a handler function returns: a status code and an error, or none.
abbrev pub Outcome : Type 0
Outcome = ℕ × Option Error

module _ (p : Platform) where
  -- HandlerFunc
  abbrev pub HandlerFunc : Type 0
  HandlerFunc = Request → World p → Outcome × World p

  pub record Handler : Type 0 where
    pub endpoint : Text
    pub method : Text
    pub handler_func : HandlerFunc

  -- Writes to the response.
  abbrev pub respond : List Event → World p → World p
  respond events w = record w { response = w.response ++ events }

  unfoldable pub verify_method : Text → Request → World p → Bool × World p
  unfolding check_http_method status_text
  verify_method method r w =
      if text_eq method r.method
      then (true, w)
      else if check_http_method r.method
      then (
        false,
        respond
            (header (codes "Allow") method
              ∷ http_error (status_text status_method_not_allowed) status_method_not_allowed
              ∷ [])
            w,
      )
      else (false, respond (http_error (status_text status_bad_request) status_bad_request ∷ []) w)

  -- `verifyNetwork` once the address is parsed
  unfoldable pub verify_ip : Option Bytes → World p → Bool × World p
  unfolding in_networks
  verify_ip none w = (
    false,
    respond (http_error (codes "Hostname must be an IP address") status_internal_server_error ∷ [])
        w,
  )
  verify_ip (some ip) w =
      if in_networks w.server.local_cidr ip
      then (true, w)
      else (false, respond (http_error (codes "Invalid IP address") status_forbidden ∷ []) w)

  unfoldable pub verify_host : Result Text → World p → Bool × World p
  unfolding verify_ip
  verify_host (err e) w = (
    false,
    respond (http_error (codes "Malformed address:port format") status_internal_server_error ∷ [])
        w,
  )
  verify_host (ok host) w = verify_ip (p.net.parse_ip host) w

  unfoldable pub verify_network : Request → World p → Bool × World p
  unfolding verify_host
  verify_network r w = verify_host (p.split_host_port r.remote_addr) w

  unfoldable pub verify_credentials : Option (Text × Text) → World p → Bool × World p
  verify_credentials none w =
      (false, respond (http_error (codes "BasicAuth header is required") status_forbidden ∷ []) w)
  verify_credentials (some (user, password)) w =
      if not (text_eq user basic_auth_user) || not (text_eq password w.server.basic_auth_password)
      then (
        false,
        respond (http_error (codes "BasicAuth credentials were insufficient") status_forbidden ∷ [])
            w,
      )
      else (true, w)

  unfoldable pub authenticate_user : Request → World p → Bool × World p
  unfolding verify_credentials
  authenticate_user r w = verify_credentials r.basic_auth w

  -- The error response of `ServeHTTP` for what the handler function returned.
  unfoldable pub finish : Outcome × World p → World p
  unfolding status_text
  finish ((code, none), w) = w
  finish ((code, some e), w) = respond (http_error (status_text code) code ∷ []) w

  abbrev pub and_then : Bool × World p → (World p → World p) → World p
  and_then (true, w) k = k w
  and_then (false, w) k = w

  unfoldable pub serve_http : Handler → Request → World p → World p
  serve_http h r w = and_then (verify_method h.method r w) λ w₁.
      and_then (verify_network r w₁)
        λ w₂. and_then (authenticate_user r w₂) λ w₃. finish (h.handler_func r w₃)

  -- `handleAddData` once the body is unpacked
  unfoldable pub add_data_with : Result AddDataRequest → World p → Outcome × World p
  unfolding copy
  add_data_with (err e) w = ((status_bad_request, some e), w)
  add_data_with (ok r) w =
      if not (length r.entropy == entropy_bytes)
      then (
        (
          status_bad_request,
          some (msg (codes "invalid number of entropy bytes: " ++ decimal (length r.entropy))),
        ),
        w,
      )
      else if is_negative r.timestamp
      then (
        (
          status_bad_request,
          some (msg (codes "invalid unix timestamp " ++ int_decimal r.timestamp)),
        ),
        w,
      )
      else (
        (status_ok, none),
        record w {
          server = record (w.server) {
            timestamp = r.timestamp;
            entropy = copy w.server.entropy r.entropy;
          };
        },
      )

  -- `unpackPost`, of what json.Unmarshal returns
  abbrev pub unpack_post : {A : Type 0} → Request → (Bytes → Result A) → Result A
  unpack_post r unmarshal = do b ← r.body; unmarshal b

  unfoldable pub handle_add_data : HandlerFunc
  unfolding add_data_with
  handle_add_data r w = add_data_with (unpack_post r p.json.unmarshal_add_data) w

  abbrev pub provisioned : Result (Unit {0}) × p.efi.State → World p → Outcome × World p
  provisioned (ok u, s) w = ((status_ok, none), record w { nvram = s })
  provisioned (err e, s) w = ((status_bad_request, some e), record w { nvram = s })

  abbrev pub checked :
      Result (Unit {0}) → AddSecureBootRequest → World p → Bool × (Outcome × World p)
  checked (err e) r w = (false, ((status_bad_request, some e), w))
  checked (ok u) r w =
      (r.reboot_into_uefi_menu, provisioned (provision p.efi r.pk r.kek r.db r.dbx w.nvram) w)

  -- `handleAddSecureBoot` once the body is unpacked; the flag is what the deferred function reads
  unfoldable pub add_secure_boot_with :
      Result AddSecureBootRequest → World p → Bool × (Outcome × World p)
  add_secure_boot_with (err e) w = (false, ((status_bad_request, some e), w))
  add_secure_boot_with (ok r) w = checked (check r) r w

  -- A read error goes on as setup mode does.
  unfoldable pub add_secure_boot_in : Result Bool → Request → World p → Bool × (Outcome × World p)
  unfolding add_secure_boot_with
  add_secure_boot_in (ok false) r w =
      (false, ((status_forbidden, some (msg (codes "not in setup mode"))), w))
  add_secure_boot_in (ok true) r w =
      add_secure_boot_with (unpack_post r p.json.unmarshal_add_secure_boot) w
  add_secure_boot_in (err e) r w =
      add_secure_boot_with (unpack_post r p.json.unmarshal_add_secure_boot) w

  -- The deferred function: an error of the request is only logged.
  unfoldable pub deferred_reboot : Bool × (Outcome × World p) → Outcome × World p
  deferred_reboot (false, (outcome, w)) = (outcome, w)
  deferred_reboot (true, (outcome, w)) =
      (outcome, record w { nvram = (request_reboot_into_uefi_menu p.efi w.nvram).1 })

  unfoldable pub handle_add_secure_boot : HandlerFunc
  unfolding add_secure_boot_in deferred_reboot
  handle_add_secure_boot r w =
      deferred_reboot (add_secure_boot_in (is_setup_mode p.efi w.nvram) r w)

  -- `handleCommit` once the response is marshalled
  unfoldable pub commit_with : Option Error → Bytes → Bytes → World p → Outcome × World p
  commit_with (some e) uds b w =
      ((status_internal_server_error, some (wrap (codes "write commit response") e)), w)
  commit_with none uds b w = (
    (status_ok, none),
    record w {
      response = w.response ++ write b ∷ [];
      server = record (w.server) { uds = some uds; commit = w.server.commit + 1 };
    },
  )

  unfoldable pub commit_marshalled : Result Bytes → Bytes → World p → Outcome × World p
  unfolding commit_with
  commit_marshalled (err e) uds w =
      ((status_internal_server_error, some (wrap (codes "marshal commit response") e)), w)
  commit_marshalled (ok b) uds w = commit_with w.write_error uds b w

  unfoldable pub commit_response : Result CommitResponse → Bytes → World p → Outcome × World p
  unfolding commit_marshalled
  commit_response (err e) uds w =
      ((status_internal_server_error, some (wrap (codes "new commit response") e)), w)
  commit_response (ok cr) uds w = commit_marshalled (p.json.marshal_commit cr) uds w

  unfoldable pub commit_secret : Result Bytes → World p → Outcome × World p
  unfolding commit_response
  commit_secret (err e) w =
      ((status_internal_server_error, some (wrap (codes "new unique device secret") e)), w)
  commit_secret (ok uds) w =
      commit_response (new_commit_response p.crypto uds w.server.host_name) uds w

  unfoldable pub handle_commit : HandlerFunc
  unfolding commit_secret
  handle_commit r w =
      let (uds, rand') = new_unique_device_secret p.crypto w.server.entropy w.rand in
      commit_secret uds (record w { rand = rand' })

  -- `Server.handlers`
  unfoldable pub handlers : List Handler
  handlers =
      record { endpoint = endpoint_add_data; method = method_post; handler_func = handle_add_data }
      ∷ record {
        endpoint = endpoint_add_secure_boot;
        method = method_post;
        handler_func = handle_add_secure_boot;
      }
      ∷ record { endpoint = endpoint_commit; method = method_get; handler_func = handle_commit }
      ∷ []

  -- The path that `Run` registers a handler at.
  abbrev pub path_of : Text → Text
  path_of endpoint = codes "/" ++ protocol ++ codes "/" ++ endpoint

  -- The mux: the handler whose path is the request's, or the library's answer.
  unfoldable pub serve_path : List Handler → Text → Request → World p → World p
  serve_path [] path r w = respond (http_error (codes "404 page not found") 404 ∷ []) w
  serve_path (h ∷ hs) path r w =
      if text_eq path (path_of h.endpoint) then serve_http h r w else serve_path hs path r w

  -- A request to the server that `Run` starts.
  unfoldable pub serve : Text → Request → World p → World p
  unfolding handlers serve_path
  serve path r w = serve_path handlers path r w
