-- ===== src/Api/Handling.antt =====
-- What the three handler functions do to the server and to the EFI variables
-- (internal/api/handler.go).
use stprov.Prelude.{
  Bool, true, false, none, some, [], ◌∷◌, ◌++◌, Bytes, length, Error, Result, ok, err, Bool-cases,
  inl, inr, ◌≡◌, ◌≢◌, refl, arith, if◌then◌else◌, msg, codes, decimal, ==_iff, ap, ◌==◌,
}
use stprov.Prelude.Errors.{◌>>=◌}
use stprov.Prelude.Int.{is_negative, int_decimal}
use stprov.Sb.{is_setup_mode, provision, request_reboot_into_uefi_menu}
use stprov.Secrets.{entropy_bytes}
use stprov.Api.{AddDataRequest, AddSecureBootRequest, check}
use stprov.Api.Server.{Platform, Request, World}
use stprov.Api.Handler.{
  copy, handle_add_data, add_data_with, handle_add_secure_boot, add_secure_boot_in, deferred_reboot,
  status_ok, status_bad_request, status_forbidden,
}

pub copy_all : (dst src : Bytes) → length dst ≡ length src → copy dst src ≡ src
unfolding copy
copy_all [] [] e = refl
copy_all [] (y ∷ src) e = absurd (omega arith)
copy_all (x ∷ dst) [] e = absurd (omega arith)
copy_all (x ∷ dst) (y ∷ src) e = ap (λ t. y ∷ t) (copy_all dst src (omega arith))

module _ (p : Platform) where
  abbrev add_data_of : Request → Result AddDataRequest
  add_data_of r = do b ← r.body; p.json.unmarshal_add_data b

  abbrev secure_boot_of : Request → Result AddSecureBootRequest
  secure_boot_of r = do b ← r.body; p.json.unmarshal_add_secure_boot b

  -- A body that unpacks to 32 bytes of entropy and a timestamp that is not negative is accepted by a
  -- server whose entropy has 32 bytes: it keeps both, and nothing else changes.
  pub handle_add_data-accepts :
      (r : Request) (w : World p) (d : AddDataRequest)
      → add_data_of r ≡ ok d
      → length d.entropy ≡ entropy_bytes
      → is_negative d.timestamp ≡ false
      → length w.server.entropy ≡ entropy_bytes
      → handle_add_data p r w ≡ (
        (status_ok, none),
        record w { server = record (w.server) { entropy = d.entropy; timestamp = d.timestamp } },
      )
  unfolding handle_add_data
  handle_add_data-accepts r w d e size sign old =
      ground (arith, copy_all w.server.entropy d.entropy (omega arith))

  -- A body that unpacks to 32 bytes of entropy and a timestamp that is not negative.
  abbrev pub IsAcceptable : Request → Type 0
  IsAcceptable r =
      (d : AddDataRequest) × (add_data_of r ≡ ok d)
      × (length d.entropy ≡ entropy_bytes)
      × (is_negative d.timestamp ≡ false)

  rejected :
      (result : Result AddDataRequest) (w : World p)
      → ((d : AddDataRequest)
          → result ≡ ok d
          → length d.entropy ≡ entropy_bytes
          → is_negative d.timestamp ≡ true)
      → (e : Error) × (add_data_with p result w ≡ ((status_bad_request, some e), w))
  unfolding add_data_with
  rejected (err e) w no_data = (e, refl)
  rejected (ok d) w no_data = elim (Bool-cases (length d.entropy == entropy_bytes)) [
    | inr f ↦
        (msg (codes "invalid number of entropy bytes: " ++ decimal (length d.entropy)), rw f refl)
    | inl t ↦ (
      msg (codes "invalid unix timestamp " ++ int_decimal d.timestamp),
      rw (t, no_data d refl ((==_iff (length d.entropy) entropy_bytes).0 t)) refl,
    )
  ]

  -- A body that does not unpack to 32 bytes of entropy and a timestamp that is not negative is
  -- answered with 400 and changes nothing.
  pub handle_add_data-rejects :
      (r : Request) (w : World p)
      → ¬ IsAcceptable r
      → (e : Error) × (handle_add_data p r w ≡ ((status_bad_request, some e), w))
  unfolding handle_add_data
  handle_add_data-rejects r w no_data = rejected (add_data_of r) w λ d e size.
      elim (Bool-cases (is_negative d.timestamp)) [
        | inl t ↦ t
        | inr f ↦ absurd (no_data (d, e, size, f))
      ]

  -- Out of setup mode nothing changes: the answer is 403, whatever the body.
  pub handle_add_secure_boot-not_setup_mode :
      (r : Request) (w : World p)
      → is_setup_mode p.efi w.nvram ≡ ok false
      → (e : Error) × (handle_add_secure_boot p r w ≡ ((status_forbidden, some e), w))
  unfolding handle_add_secure_boot
  handle_add_secure_boot-not_setup_mode r w h = (msg (codes "not in setup mode"), rw h)

  invalid :
      (mode : Result Bool) (r : Request) (w : World p) (e : Error)
      → (do d ← secure_boot_of r; check d) ≡ err e
      → (deferred_reboot p (add_secure_boot_in p mode r w)).1 ≡ w
  unfolding add_secure_boot_in deferred_reboot
  invalid (ok false) r w e h = refl
  invalid (ok true) r w e h = ground arith
  invalid (err c) r w e h = ground arith

  -- With a request that does not unpack or lacks PK, KEK or db, nothing changes.
  pub handle_add_secure_boot-invalid :
      (r : Request) (w : World p) (e : Error)
      → (do d ← secure_boot_of r; check d) ≡ err e
      → (handle_add_secure_boot p r w).1 ≡ w
  unfolding handle_add_secure_boot
  handle_add_secure_boot-invalid r w e h = invalid (is_setup_mode p.efi w.nvram) r w e h

  -- With a request that is complete, and unless the platform is known not to be in setup mode, the
  -- keys are provisioned; then the reboot into the menu is requested if the request asks for it,
  -- whether or not the provisioning succeeded. The answer is 200 or 400 by the provisioning alone.
  pub handle_add_secure_boot-provisions :
      (r : Request) (w : World p) (d : AddSecureBootRequest)
      → is_setup_mode p.efi w.nvram ≢ ok false
      → secure_boot_of r ≡ ok d
      → check d ≡ ok tt
      → let after = provision p.efi d.pk d.kek d.db d.dbx w.nvram in
        ((handle_add_secure_boot p r w).1 ≡ record w {
          nvram =
              if d.reboot_into_uefi_menu
              then (request_reboot_into_uefi_menu p.efi after.1).1
              else after.1;
        })
        × ((handle_add_secure_boot p r w).0
            ≡ elim after.0 [ ok u ↦ (status_ok, none) | err e ↦ (status_bad_request, some e) ])
  unfolding handle_add_secure_boot
  handle_add_secure_boot-provisions r w d mode e c = (ground arith, ground arith)
