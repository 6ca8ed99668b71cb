-- ===== src/Api/Invariant.antt =====
-- Invariants of the server under any requests, one after the other (internal/api/server.go,
-- handler.go).
use stprov.Prelude.{
  suc, ◌≤◌, Bool, true, false, none, some, List, [], ◌∷◌, ◌++◌, Text, Bytes, length, Result, ok,
  err, Result-cases, Bool-cases, ◌⊎◌, inl, inr, ◌≡◌, refl, sym, ◌∙◌, arith, ◌==◌, ap,
}
use stprov.Prelude.Errors.{◌>>=◌}
use mathlib.Core.Path.{subst}
use stprov.Prelude.Int.{is_negative}
use stprov.Net.{Net}
use stprov.Crypto.{Crypto, IsReadFull}
use stprov.Sb.{is_setup_mode}
use stprov.Secrets.{entropy_bytes, new_one_time_password, tls_certificate, basic_auth_password}
use stprov.Secrets.Derivation.{new_unique_device_secret-mixes}
use stprov.Api.{AddDataRequest}
use stprov.Api.Server.{Server, ServerConfig, Platform, Request, World, new_server}
use stprov.Api.Handler.{
  handle_add_data, add_data_with, handle_add_secure_boot, add_secure_boot_in, handle_commit, serve,
  copy, deferred_reboot,
}
use stprov.Api.Commit.{handle_commit-cases}
use stprov.Api.Keeps.{serve-keeps}

-- The entropy is 32 bytes and the time is not negative; a unique device secret, of 32 bytes, is
-- there exactly when a commit was signalled.
pub record IsWellFormed {crypto : Crypto} (s : Server crypto) : Type 0 where
  pub entropy_size : length s.entropy ≡ entropy_bytes
  pub timestamp_sign : is_negative s.timestamp ≡ false
  pub signalled :
      ((s.uds ≡ none) × (s.commit ≡ 0))
      ⊎ ((uds : Bytes) × (s.uds ≡ some uds) × (length uds ≡ entropy_bytes) × (1 ≤ s.commit))

pub new_server-IsWellFormed :
    (crypto : Crypto) (net : Net) (cfg : ServerConfig) {s : Server crypto}
    → new_server crypto net cfg ≡ ok s
    → IsWellFormed s
unfolding new_server
new_server-IsWellFormed crypto net cfg {s} h =
    elim (Result-cases (new_one_time_password crypto cfg.secret)) [
      | inr (e, a) ↦ absurd (ground arith)
      | inl (otp, a) ↦ elim (Result-cases (tls_certificate crypto otp)) [
        | inr (e, b) ↦ absurd (ground arith)
        | inl (crt, b) ↦ elim (Result-cases (basic_auth_password crypto otp)) [
          | inr (e, c) ↦ absurd (ground arith)
          | inl (password, c) ↦ record {
            entropy_size = ground arith;
            timestamp_sign = ground arith;
            signalled = inl (ground arith, ground arith);
          }
        ]
      ]
    ]

length-copy : (dst src : Bytes) → length (copy dst src) ≡ length dst
unfolding copy
length-copy [] [] = refl
length-copy [] (y ∷ src) = refl
length-copy (x ∷ dst) [] = refl
length-copy (x ∷ dst) (y ∷ src) = ap suc (length-copy dst src)

-- Requests that arrive one after the other.
unfoldable pub serve_all : (p : Platform) → List (Text × Request) → World p → World p
serve_all p [] w = w
serve_all p ((path, r) ∷ rs) w = serve_all p rs (serve p path r w)

pub serve_all-append :
    (p : Platform) (before after : List (Text × Request)) (w : World p)
    → serve_all p (before ++ after) w ≡ serve_all p after (serve_all p before w)
unfolding serve_all
serve_all-append p [] after w = refl
serve_all-append p ((path, r) ∷ before) after w = serve_all-append p before after (serve p path r w)

module _ (p : Platform) where
  add_data_with-IsWellFormed :
      (d : Result AddDataRequest) (w : World p)
      → IsWellFormed w.server
      → IsWellFormed (add_data_with p d w).1.server
  unfolding add_data_with
  add_data_with-IsWellFormed (err e) w v = v
  add_data_with-IsWellFormed (ok d) w v = elim (Bool-cases (length d.entropy == entropy_bytes)) [
    | inr f ↦ rw f v
    | inl t ↦ elim (Bool-cases (is_negative d.timestamp)) [
      | inl n ↦ rw (t, n) v
      | inr n ↦
          rw (t, n)
            (record {
              entropy_size = length-copy w.server.entropy d.entropy ∙ v.entropy_size;
              timestamp_sign = n;
              signalled = v.signalled;
            })
    ]
  ]

  pub server-secure_boot :
      (mode : Result Bool) (r : Request) (w : World p)
      → (deferred_reboot p (add_secure_boot_in p mode r w)).1.server ≡ w.server
  unfolding add_secure_boot_in deferred_reboot
  server-secure_boot (ok false) r w = refl
  server-secure_boot (ok true) r w = ground arith
  server-secure_boot (err e) r w = ground arith

  module _ (full : IsReadFull p.crypto) where
    commit-IsWellFormed :
        (r : Request) (w : World p)
        → IsWellFormed w.server
        → IsWellFormed (handle_commit p r w).1.server
    commit-IsWellFormed r w v = elim (handle_commit-cases p r w) [
      | inr (e, q) ↦ rw q v
      | inl (c, q) ↦
          let (loc, _, _, _, size) =
            new_unique_device_secret-mixes p.crypto full w.server.entropy w.rand c.is_secret in
          rw q (record {
            entropy_size = v.entropy_size;
            timestamp_sign = v.timestamp_sign;
            signalled = inr (c.uds, refl, size, omega arith);
          })
    ]

    serve-IsWellFormed :
        (path : Text) (r : Request) (w : World p)
        → IsWellFormed w.server
        → IsWellFormed (serve p path r w).server
    serve-IsWellFormed path r w v =
        serve-keeps p (λ w. IsWellFormed w.server) (λ events w v. v)
          (λ r w v.
            unfold handle_add_data in
            add_data_with-IsWellFormed (do b ← r.body; p.json.unmarshal_add_data b) w v)
          (λ r w v.
            unfold handle_add_secure_boot in
            subst IsWellFormed (sym (server-secure_boot (is_setup_mode p.efi w.nvram) r w)) v)
          commit-IsWellFormed path r w v

    pub serve_all-IsWellFormed :
        (rs : List (Text × Request)) (w : World p)
        → IsWellFormed w.server
        → IsWellFormed (serve_all p rs w).server
    unfolding serve_all
    serve_all-IsWellFormed [] w v = v
    serve_all-IsWellFormed ((path, r) ∷ rs) w v =
        serve_all-IsWellFormed rs (serve p path r w) (serve-IsWellFormed path r w v)

    -- After any requests, allowed or not, to a server that was just created, the entropy is 32
    -- bytes, the time is not negative, and the server has a unique device secret, of 32 bytes,
    -- exactly if a commit was signalled.
    pub created-IsWellFormed :
        (net : Net) (cfg : ServerConfig) (rs : List (Text × Request)) (w : World p)
        → new_server p.crypto net cfg ≡ ok w.server
        → IsWellFormed (serve_all p rs w).server
    created-IsWellFormed net cfg rs w h =
        serve_all-IsWellFormed rs w (new_server-IsWellFormed p.crypto net cfg h)
