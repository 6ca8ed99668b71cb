-- ===== src/Api/Keys.antt =====
-- The exchange of the Secure Boot keys: the client of internal/api/client.go and the server of
-- internal/api/handler.go.
use stprov.Prelude.{
  ℕ, Bool, true, false, none, some, [], ◌++◌, Bytes, Error, Result, ok, err, Result-cases, ◌⊎◌, inl,
  inr, ◌≡◌, ◌≢◌, refl, arith, ◌==◌, if◌then◌else◌, msg, codes,
}
use stprov.Prelude.Errors.{◌>>=◌}
use stprov.Sb.Provision.{calls, plan, provision_complete}
use stprov.Sb.{provision, request_reboot_into_uefi_menu, is_setup_mode}
use stprov.Api.{
  IsJson, AddSecureBootRequest, endpoint_add_secure_boot, basic_auth_user, check,
  new_add_secure_boot_request,
}
use stprov.Api.Server.{Platform, Request, World, method_post}
use stprov.Api.Handler.{
  Outcome, Handler, handle_add_secure_boot, add_secure_boot_in, add_secure_boot_with,
  deferred_reboot, serve, serve_http, finish, path_of, status_ok,
}
use stprov.Api.Client.{Client, Outgoing, add_secure_boot_keys, do_post, do_request, send}
use stprov.Api.Access.{serve_http-cases, serve_http-allowed}
use stprov.Api.Answer.{status_of-refused}
use stprov.Api.Exchange.{Link, connection, status_of, answered, incoming}
use stprov.Api.Response.{fresh}

module _ (p : Platform) where
  abbrev secure_boot_of : Request → Result AddSecureBootRequest
  secure_boot_of r = do b ← r.body; p.json.unmarshal_add_secure_boot b

  -- The EFI variables once the keys are provisioned, and the reboot into the menu is requested.
  abbrev pub provisioned_with : AddSecureBootRequest → p.efi.State → p.efi.State
  provisioned_with d s =
      let after = (provision p.efi d.pk d.kek d.db d.dbx s).1 in
      if d.reboot_into_uefi_menu then (request_reboot_into_uefi_menu p.efi after).1 else after

  -- The keys are provisioned: the calls of WriteVariable are those of the plan, in order.
  pub record IsProvisioned (d : AddSecureBootRequest) (s s' : p.efi.State) : Type 0 where
    pub setup_mode : is_setup_mode p.efi s ≢ ok false
    pub complete : check d ≡ ok tt
    pub all_written : (provision p.efi d.pk d.kek d.db d.dbx s).0 ≡ ok tt
    pub in_order : calls p.efi d.pk d.kek d.db d.dbx s ≡ plan p.efi d.pk d.kek d.db d.dbx
    pub left : s' ≡ provisioned_with d s

  -- The keys of a request are provisioned with the answer 200, or the answer is an error.
  abbrev IsDone : Result AddSecureBootRequest → World p → Outcome × World p → Type 0
  IsDone r w o =
      (d : AddSecureBootRequest) × (r ≡ ok d)
      × (check d ≡ ok tt)
      × ((provision p.efi d.pk d.kek d.db d.dbx w.nvram).0 ≡ ok tt)
      × (o ≡ ((status_ok, none), record w { nvram = provisioned_with d w.nvram }))

  abbrev IsFailed : World p → Outcome × World p → Type 0
  IsFailed w o =
      (code : ℕ) × (e : Error) × ((code == status_ok) ≡ false)
      × (o.0 ≡ (code, some e))
      × (o.1.response ≡ w.response)

  with-cases :
      (r : Result AddSecureBootRequest) (w : World p)
      → let o = deferred_reboot p (add_secure_boot_with p r w) in IsDone r w o ⊎ IsFailed w o
  unfolding add_secure_boot_with deferred_reboot
  with-cases (err e) w = inr (400, e, refl, refl, refl)
  with-cases (ok d) w = elim (Result-cases (check d)) [
    | inr (e, q) ↦ inr (400, e, refl, rw q refl, rw q refl)
    | inl (u, q) ↦ elim (Result-cases (provision p.efi d.pk d.kek d.db d.dbx w.nvram).0) [
      | inr (e, q') ↦ inr (400, e, refl, ground arith, ground arith)
      | inl (v, q') ↦ inl (d, refl, q, q', ground arith)
    ]
  ]

  in-cases :
      (m : Result Bool) (r : Request) (w : World p)
      → let o = deferred_reboot p (add_secure_boot_in p m r w) in
        ((m ≢ ok false) × IsDone (secure_boot_of r) w o) ⊎ IsFailed w o
  unfolding add_secure_boot_in deferred_reboot
  in-cases (ok false) r w = inr (403, msg (codes "not in setup mode"), refl, refl, refl)
  in-cases (ok true) r w = elim (with-cases (secure_boot_of r) w) [
    | inl done ↦ inl (λ h. cc, done)
    | inr failed ↦ inr failed
  ]
  in-cases (err e) r w = elim (with-cases (secure_boot_of r) w) [
    | inl done ↦ inl (λ h. cc, done)
    | inr failed ↦ inr failed
  ]

  handle_add_secure_boot-cases :
      (r : Request) (w : World p)
      → ((is_setup_mode p.efi w.nvram ≢ ok false)
          × IsDone (secure_boot_of r) w (handle_add_secure_boot p r w))
        ⊎ IsFailed w (handle_add_secure_boot p r w)
  unfolding handle_add_secure_boot
  handle_add_secure_boot-cases r w = in-cases (is_setup_mode p.efi w.nvram) r w

  -- The status of an error is the one that is sent, if nothing was written before it.
  status_of-finish :
      (o : Outcome × World p) {code : ℕ} {e : Error}
      → o.0 ≡ (code, some e)
      → o.1.response ≡ []
      → status_of (finish p o).response ≡ code
  status_of-finish (((code, none), w)) h empty = absurd (ground (arith, h))
  status_of-finish (((code, some e), w)) h empty = unfold finish in rw empty (ground (arith, h))

module _ (p : Platform) (link : Link) where
  abbrev secure_boot_handler : Handler p
  secure_boot_handler = record {
    endpoint = endpoint_add_secure_boot;
    method = method_post;
    handler_func = handle_add_secure_boot p;
  }

  -- The answer to a request with keys is no 200, or the keys were provisioned.
  answered-secure_boot :
      (o : Outgoing) (w : World p)
      → link.url_path o.url ≡ path_of p endpoint_add_secure_boot
      → ((status_of (answered p link o w).response == status_ok) ≡ false)
        ⊎ ((is_setup_mode p.efi w.nvram ≢ ok false)
            × ((d : AddSecureBootRequest) × (p.json.unmarshal_add_secure_boot o.body ≡ ok d)
                × (check d ≡ ok tt)
                × ((provision p.efi d.pk d.kek d.db d.dbx w.nvram).0 ≡ ok tt)
                × (answered p link o w
                    ≡ record (fresh w) { nvram = provisioned_with p d w.nvram })))
  answered-secure_boot o w routed =
      let r = incoming p link o in
      let same : answered p link o w ≡ serve_http p secure_boot_handler r (fresh w) =
        unfold serve in rw routed refl in
      elim (serve_http-cases p secure_boot_handler r (fresh w)) [
        | inr (events, refusal, e) ↦ inl (rw (same, e) (status_of-refused refusal))
        | inl a ↦
            let allowed = serve_http-allowed p secure_boot_handler r (fresh w) a in
            elim (handle_add_secure_boot-cases p r (fresh w)) [
              | inl (mode, (d, is_d, good, written, q)) ↦
                  inr
                    (mode, (d, is_d, good, written, rw (same, allowed, q) (unfold finish in refl)))
              | inr (code, e, bad, q, empty) ↦ inl (
                  rw
                    (
                      same,
                      allowed,
                      status_of-finish p (handle_add_secure_boot p r (fresh w)) q empty,
                    )
                    bad)
            ]
      ]

  abbrev pub keys_of : Client p.crypto → AddSecureBootRequest
  keys_of c = record {
    pk = c.pk;
    kek = c.kek;
    db = c.db;
    dbx = c.dbx;
    reboot_into_uefi_menu = c.reboot_into_uefi_menu;
  }

  abbrev sent : Client p.crypto → Bytes → Outgoing
  sent c b = record {
    method = method_post;
    url = c.server_url ++ endpoint_add_secure_boot;
    user = basic_auth_user;
    password = c.basic_auth_password;
    body = b;
  }

  -- If the client's exchange of the Secure Boot keys succeeds, then on the server the platform was
  -- not known to be out of setup mode, and the client's own PK, KEK, db and, if there is one, dbx
  -- were written in that order, each without an error and each an authenticated write; after that the
  -- reboot into the menu was requested if the client wants it; that is all that became of the EFI
  -- variables, and nothing of the server was changed.
  pub add_secure_boot_keys-IsProvisioned :
      (is_json : IsJson p.json) (c : Client p.crypto) (rand : p.crypto.Reader) (w : World p)
      → link.url_path (c.server_url ++ endpoint_add_secure_boot)
        ≡ path_of p endpoint_add_secure_boot
      → let result = add_secure_boot_keys p.crypto (connection p link) c (rand, w) in
        (result.0 ≡ ok tt)
        → IsProvisioned p (keys_of c) w.nvram result.1.1.nvram × (result.1.1.server ≡ w.server)
  unfolding add_secure_boot_keys do_post do_request send new_add_secure_boot_request
  add_secure_boot_keys-IsProvisioned is_json c rand w routed h =
      let d = keys_of c in
      elim (Result-cases (check d)) [
        | inr (e, q) ↦ absurd (ground arith)
        | inl (u, good) ↦ elim (Result-cases (p.json.marshal_add_secure_boot d)) [
          | inr (e, q) ↦ absurd (ground arith)
          | inl (b, is_b) ↦
              elim (Result-cases
                (link.new_request method_post (c.server_url ++ endpoint_add_secure_boot))) [
                  | inr (e, q) ↦ absurd (ground arith)
                  | inl (v, q) ↦ elim (answered-secure_boot (sent c b) w routed) [
                    | inl refused ↦ absurd (ground (arith, refused))
                    | inr (mode, (d', is_d, good', written, e)) ↦
                        let same : d' ≡ d = ground (arith, is_json.add_secure_boot d is_b) in
                        let run : (add_secure_boot_keys p.crypto (connection p link) c
                              (rand, w)).1.1
                            ≡ record (fresh w) { nvram = provisioned_with p d w.nvram } =
                          rw (good, is_b, q, e, same) refl in
                        rw run (
                          record {
                            setup_mode = mode;
                            complete = good;
                            all_written = rw same at written;
                            in_order =
                                provision_complete p.efi c.pk c.kek c.db c.dbx w.nvram
                                  (rw same at written);
                            left = refl;
                          },
                          refl,
                        )
                  ]
                ]
        ]
      ]
