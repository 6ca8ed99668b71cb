-- ===== src/Api/Frame.antt =====
-- What no request changes, and what only one kind of request may change (internal/api/handler.go).
use stprov.Prelude.{
  List, [], ◌∷◌, Text, text_eq, text_eq_sound, Result, ok, err, Bool-cases, inl, inr, ◌≡◌, ◌≢◌,
  refl, ◌∙◌, ap, arith,
}
use stprov.Prelude.Errors.{◌>>=◌}
use stprov.Sb.{is_setup_mode}
use stprov.Api.{AddDataRequest, endpoint_add_data, endpoint_add_secure_boot, endpoint_commit}
use stprov.Api.Server.{Server, ServerConfig, Platform, Request, World}
use stprov.Api.Handler.{
  handle_add_data, add_data_with, handle_add_secure_boot, handle_commit, serve, path_of,
}
use stprov.Api.Commit.{handle_commit-cases}
use stprov.Api.Invariant.{serve_all, server-secure_boot}
use stprov.Api.Keeps.{serve-keeps, serve_http-keeps}

module _ (p : Platform) where
  -- The configuration of the server, its certificate and the password of its clients.
  abbrev pub fixed : World p → ServerConfig × Text × p.crypto.KeyPair
  fixed w = (w.server.config, w.server.basic_auth_password, w.server.certificate)

  fixed-add_data_with :
      (d : Result AddDataRequest) (w : World p) → fixed (add_data_with p d w).1 ≡ fixed w
  unfolding add_data_with
  fixed-add_data_with (err e) w = refl
  fixed-add_data_with (ok d) w = ground arith

  fixed-handle_commit : (r : Request) (w : World p) → fixed (handle_commit p r w).1 ≡ fixed w
  fixed-handle_commit r w = elim (handle_commit-cases p r w) [
    | inl (c, q) ↦ rw q
    | inr (e, q) ↦ rw q
  ]

  pub fixed-serve : (path : Text) (r : Request) (w : World p) → fixed (serve p path r w) ≡ fixed w
  fixed-serve path r w =
      serve-keeps p (λ v. fixed v ≡ fixed w) (λ events v h. h)
        (λ r v h.
          unfold handle_add_data in
          fixed-add_data_with (do b ← r.body; p.json.unmarshal_add_data b) v ∙ h)
        (λ r v h.
          unfold handle_add_secure_boot in
          ap (λ (s : Server p.crypto). (s.config, s.basic_auth_password, s.certificate))
            (server-secure_boot p (is_setup_mode p.efi v.nvram) r v)
          ∙ h)
        (λ r v h. fixed-handle_commit r v ∙ h) path r w refl

  -- No sequence of requests changes the server's configuration, its certificate or the password
  -- that it asks for: who may connect stays as the operator set it.
  pub fixed-serve_all :
      (rs : List (Text × Request)) (w : World p) → fixed (serve_all p rs w) ≡ fixed w
  unfolding serve_all
  fixed-serve_all [] w = refl
  fixed-serve_all ((path, r) ∷ rs) w = fixed-serve_all rs (serve p path r w) ∙ fixed-serve path r w

  nvram-add_data_with :
      (d : Result AddDataRequest) (w : World p) → (add_data_with p d w).1.nvram ≡ w.nvram
  unfolding add_data_with
  nvram-add_data_with (err e) w = refl
  nvram-add_data_with (ok d) w = ground arith

  nvram-handle_add_data : (r : Request) (w : World p) → (handle_add_data p r w).1.nvram ≡ w.nvram
  unfolding handle_add_data
  nvram-handle_add_data r w = nvram-add_data_with (do b ← r.body; p.json.unmarshal_add_data b) w

  nvram-handle_commit : (r : Request) (w : World p) → (handle_commit p r w).1.nvram ≡ w.nvram
  nvram-handle_commit r w = elim (handle_commit-cases p r w) [
    | inl (c, q) ↦ rw q
    | inr (e, q) ↦ rw q
  ]

  -- A request to any other path than that of the Secure Boot keys leaves the EFI variables alone.
  pub serve-nvram :
      (path : Text) (r : Request) (w : World p)
      → path ≢ path_of p endpoint_add_secure_boot
      → (serve p path r w).nvram ≡ w.nvram
  unfolding serve
  serve-nvram path r w other = elim (Bool-cases (text_eq path (path_of p endpoint_add_data))) [
    | inl t ↦ rw t (
        serve_http-keeps p (λ v. v.nvram ≡ w.nvram) (λ events v h. h) _
          (λ r v h. nvram-handle_add_data r v ∙ h) r w refl)
    | inr f ↦ elim (Bool-cases (text_eq path (path_of p endpoint_add_secure_boot))) [
      | inl t ↦ absurd (other (text_eq_sound path (path_of p endpoint_add_secure_boot) t))
      | inr g ↦ elim (Bool-cases (text_eq path (path_of p endpoint_commit))) [
        | inl t ↦
            rw (f, g, t)
              (serve_http-keeps p (λ v. v.nvram ≡ w.nvram) (λ events v h. h) _
                (λ r v h. nvram-handle_commit r v ∙ h) r w refl)
        | inr k ↦ rw (f, g, k)
      ]
    ]
  ]
