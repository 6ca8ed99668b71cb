-- ===== src/Together/Keys.antt =====
-- What `stprov local run` leaves in the EFI variables of the server's platform
-- (subcmd/local/run/run.go, internal/api/handler.go).
use stprov.Prelude.{
  Bool, true, false, List, ◌++◌, Text, ok, Result-cases, Bool-cases, not, ◌⊎◌, inl, inr, ◌≡◌, ◌≢◌,
  refl, ◌∙◌, ap, arith,
}
use mathlib.Core.Path.{subst}
use stprov.Prelude.Int.{ℤ}
use stprov.Secrets.{new_one_time_password, x509_certificate, basic_auth_password}
use stprov.Api.{
  IsJson, AddSecureBootRequest, CommitResponse, endpoint_add_data, endpoint_add_secure_boot,
  endpoint_commit,
}
use stprov.Api.Server.{Platform, World}
use stprov.Api.Handler.{path_of}
use stprov.Api.Client.{Client, ClientConfig, new_client, add_data, add_secure_boot_keys, commit}
use stprov.Api.Exchange.{Link, connection, incoming}
use stprov.Api.Answer.{commit-IsAnswer}
use stprov.Api.Frame.{serve-nvram}
use stprov.Api.Keys.{IsProvisioned, keys_of, add_secure_boot_keys-IsProvisioned}
use stprov.Api.Response.{fresh}
use stprov.Local.Run as Local
use stprov.Local.Run.{Options, FileRead, KeyFiles, client_config, read_key_files, exchanges}
use stprov.Local.Run.Checks.{KeysMatch, client_config-IsComplete}
use stprov.Local.Run.Printed.{main-IsPrinted}
use stprov.Together.Client.{add_data-Keeps}

module _ (p : Platform) (link : Link) where
  -- The URLs of the exchanges lead to the handlers.
  pub record IsRouted (c : Client p.crypto) : Type 0 where
    pub add_data : link.url_path (c.server_url ++ endpoint_add_data) ≡ path_of p endpoint_add_data
    pub add_secure_boot :
        link.url_path (c.server_url ++ endpoint_add_secure_boot)
        ≡ path_of p endpoint_add_secure_boot
    pub commit : link.url_path (c.server_url ++ endpoint_commit) ≡ path_of p endpoint_commit

  -- The keys are provisioned if there are any, or else the variables are left alone.
  abbrev pub IsLeft : Bool → AddSecureBootRequest → p.efi.State → p.efi.State → Type 0
  IsLeft have_sb d s s' =
      ((have_sb ≡ false) × (s' ≡ s)) ⊎ ((have_sb ≡ true) × IsProvisioned p d s s')

  add_data-nvram :
      (c : Client p.crypto) (now : ℤ) (rand : p.crypto.Reader) (w : World p)
      → IsRouted c
      → (add_data p.crypto (connection p link) c now (rand, w)).1.1.nvram ≡ w.nvram
  add_data-nvram c now rand w routed =
      add_data-Keeps p.crypto (connection p link) (λ v. v.nvram ≡ w.nvram)
        (λ url. link.url_path url ≢ path_of p endpoint_add_secure_boot)
        (λ o v other h. serve-nvram p (link.url_path o.url) (incoming p link o) (fresh v) other ∙ h)
        c now (rw routed.add_data (ground arith)) (rand, w) refl

  exchanges-IsLeft :
      (is_json : IsJson p.json) (c : Client p.crypto) (now : ℤ) (have_sb : Bool)
      (rand : p.crypto.Reader) (w : World p) {cr : CommitResponse}
      → IsRouted c
      → let run = exchanges p.crypto (connection p link) now c have_sb (rand, w) in
        (run.0 ≡ ok cr) → IsLeft have_sb (keys_of p link c) w.nvram run.1.1.nvram
  unfolding exchanges
  exchanges-IsLeft is_json c now have_sb rand w {cr} routed h =
      let t = connection p link in
      let a = add_data p.crypto t c now (rand, w) in
      let kept = add_data-nvram c now rand w routed in
      elim (Result-cases a.0) [
        | inr (e, q) ↦ absurd (ground arith)
        | inl (d, q) ↦ elim (Bool-cases have_sb) [
          | inr f ↦
              let done : (commit p.crypto t c a.1).0 ≡ ok cr = ground arith in
              let answer = commit-IsAnswer p link is_json c a.1.0 a.1.1 cr routed.commit done in
              inl (f, rw (q, f) (answer.nvram_kept ∙ kept))
          | inl y ↦
              let k = add_secure_boot_keys p.crypto t c a.1 in
              elim (Result-cases k.0) [
                | inr (e, q') ↦ absurd (ground arith)
                | inl (u, q') ↦
                    let done : (commit p.crypto t c k.1).0 ≡ ok cr = ground arith in
                    let answer =
                      commit-IsAnswer p link is_json c k.1.0 k.1.1 cr routed.commit done in
                    let (written, same) =
                      add_secure_boot_keys-IsProvisioned p link is_json c a.1.0 a.1.1
                        routed.add_secure_boot q' in
                    inr (y, rw (q, y, q', answer.nvram_kept) (rw kept at written))
              ]
        ]
      ]

  module _ (is_json : IsJson p.json) (read_file : Text → FileRead) where
    -- The URLs of the client that the command line configures lead to the handlers.
    abbrev pub AreRouted : Options → Type 0
    AreRouted o =
        (cfg : ClientConfig × Bool) (c : Client p.crypto)
        → client_config p.net read_file o ≡ ok cfg
        → new_client p.crypto p.net cfg.0 ≡ ok c
        → IsRouted c

    -- The keys that the files hold, as a request for them.
    abbrev pub request_of : ClientConfig → AddSecureBootRequest
    request_of cfg = record {
      pk = cfg.pk;
      kek = cfg.kek;
      db = cfg.db;
      dbx = cfg.dbx;
      reboot_into_uefi_menu = cfg.reboot_into_uefi_menu;
    }

    pub record IsWritten (o : Options) (s s' : p.efi.State) : Type 0 where
      pub config : ClientConfig
      pub is_reboot : config.reboot_into_uefi_menu ≡ not o.no_uefi_menu_reboot
      pub have_sb : Bool
      pub files : KeyFiles
      pub is_files : read_key_files read_file o ≡ ok files
      pub keys : KeysMatch p.net read_file files config have_sb
      pub is_left : IsLeft have_sb (request_of config) s s'

    client_config-reboot :
        (o : Options) {cfg : ClientConfig × Bool}
        → client_config p.net read_file o ≡ ok cfg
        → cfg.0.reboot_into_uefi_menu ≡ not o.no_uefi_menu_reboot
    unfolding client_config
    client_config-reboot o h = ground arith

    new_client-config :
        (cfg : ClientConfig) {c : Client p.crypto}
        → new_client p.crypto p.net cfg ≡ ok c
        → c.config ≡ cfg
    unfolding new_client
    new_client-config cfg {c} h = elim (Result-cases (new_one_time_password p.crypto cfg.secret)) [
      | inr (e, q) ↦ absurd (ground arith)
      | inl (otp, q) ↦ elim (Result-cases (x509_certificate p.crypto otp)) [
        | inr (e, q') ↦ absurd (ground arith)
        | inl (crt, q') ↦ elim (Result-cases (basic_auth_password p.crypto otp)) [
          | inr (e, r) ↦ absurd (ground arith)
          | inl (password, r) ↦ ground arith
        ]
      ]
    ]

    -- When `stprov local run` succeeds against the server, to whose handlers its URLs lead, either
    -- there was no Secure Boot file, and the EFI variables of the platform are as before, or PK,
    -- KEK and db were read from files, the platform was not known to be out of setup mode, and
    -- these and the dbx, if there is one, were written in the order PK, KEK, db, dbx, each without
    -- an error and each an authenticated write; after that the reboot into the menu was requested
    -- if the command line asks for it, and that is all that became of the EFI variables.
    pub main-IsWritten :
        (o : Options) (routed : AreRouted o) (now : ℤ) (rand : p.crypto.Reader) (w : World p)
        (lines : List Text)
        → let run = Local.main p.net read_file p.crypto (connection p link) now o (rand, w) in
          (run.0 ≡ ok lines) → IsWritten o w.nvram run.1.1.nvram
    main-IsWritten o routed now rand w lines h =
        let pr =
          main-IsPrinted p.net read_file p.crypto (connection p link) now o (rand, w) lines h in
        let (complete, files, is_files, keys) =
          client_config-IsComplete p.net read_file o pr.config.0 pr.config.1 pr.is_config in
        let left =
          exchanges-IsLeft is_json pr.client now pr.config.1 rand w
            (routed pr.config pr.client pr.is_config pr.is_client) pr.is_response in
        record {
          config = pr.config.0;
          is_reboot = client_config-reboot o pr.is_config;
          have_sb = pr.config.1;
          files = files;
          is_files = is_files;
          keys = keys;
          is_left = rw pr.same_state (
              subst
                (λ d.
                  IsLeft pr.config.1 d w.nvram
                    (exchanges p.crypto (connection p link) now pr.client pr.config.1
                      (rand, w)).1.1.nvram)
                (ap request_of (new_client-config pr.config.0 pr.is_client)) left);
        }
