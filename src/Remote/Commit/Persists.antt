-- ===== src/Remote/Commit/Persists.antt =====
-- What `commitConfig` (subcmd/remote/remote.go) writes, and when it writes nothing.
use stprov.Prelude.{
  Bool, true, false, List, [], ◌∷◌, Text, Bytes, codes, join, Error, msg, Result, ok, err,
  Result-cases, ◌⊎◌, inl, inr, ◌≡◌, ◌≢◌, refl, arith, sym, ◌∙◌,
}
use stprov.Efi.{Efi, IsStore}
use stprov.Options.{construct_url}
use stprov.St.{
  Host, write_host_name, write_host_config, host_config_efi_variable_name, read_host_name,
  host_config,
}
use stprov.St.Persist.{host_name-host_config}
use stprov.Remote.Commit.{
  Heads, new_client, check_url, unless_forced, checked_urls, persist, commit_config, efi_host_name,
  trust_policy_root_file,
}

module _ (heads : Heads) where
  -- Each URL, with the credentials in place, and in order.
  abbrev pub AllBuilt : Text → Text → List Text → List Text → Type 0
  AllBuilt user password [] [] = Unit
  AllBuilt user password [] (u ∷ us) = ⊥
  AllBuilt user password (url ∷ urls) [] = ⊥
  AllBuilt user password (url ∷ urls) (u ∷ us) =
      (construct_url url user password ≡ ok u) × AllBuilt user password urls us

  -- The checks of the URLs, one after the other, succeed.
  abbrev pub AllAnswered : heads.Client → List Text → heads.Net → Type 0
  AllAnswered client [] s = Unit
  AllAnswered client (u ∷ us) s =
      ((check_url heads client u s).0 ≡ ok tt)
      × AllAnswered client us (check_url heads client u s).1

  unless_forced-eq_ok :
      (force : Bool) (r : Result (Unit {0}))
      → unless_forced heads force r ≡ ok tt
      → (force ≡ true) ⊎ (r ≡ ok tt)
  unless_forced-eq_ok force (ok u) h = inr refl
  unless_forced-eq_ok true (err e) h = inl refl
  unless_forced-eq_ok false (err e) h = cc

  pub checked_urls-eq_ok :
      (client : heads.Client) (force : Bool) (user password : Text) (urls : List Text)
      (s : heads.Net) (us : List Text)
      → (checked_urls heads client force user password urls s).0 ≡ ok us
      → AllBuilt user password urls us × ((force ≡ true) ⊎ AllAnswered client us s)
  unfolding checked_urls
  checked_urls-eq_ok client force user password [] s [] h = (tt, inr tt)
  checked_urls-eq_ok client force user password [] s (u ∷ us) h = cc
  checked_urls-eq_ok client force user password (url ∷ urls) s us h =
      elim (Result-cases (construct_url url user password)) [
        | inr (e, q) ↦ absurd (ground arith)
        | inl (u, q) ↦
            let t = (check_url heads client u s).1 in
            elim (Result-cases (unless_forced heads force (check_url heads client u s).0)) [
              | inr (e, r) ↦ absurd (ground arith)
              | inl (v, r) ↦
                  elim (Result-cases (checked_urls heads client force user password urls t).0) [
                    | inr (e, w) ↦ absurd (ground arith)
                    | inl (rest, w) ↦
                        let same : us ≡ u ∷ rest = ground arith in
                        let (built, answered) =
                          checked_urls-eq_ok client force user password urls t rest w in
                        let checked : (force ≡ true) ⊎ ((check_url heads client u s).0 ≡ ok tt) =
                          unless_forced-eq_ok force (check_url heads client u s).0 r in
                        rw same (
                          (q, built),
                          elim checked [
                            | inl f ↦ inl f
                            | inr c ↦ elim answered [ inl f ↦ inl f | inr cs ↦ inr (c, cs) ]
                          ],
                        )
                  ]
            ]
      ]

module _ (heads : Heads) (efi : Efi) (host : Host) where
  -- The URLs that `commitConfig` was given are built and, unless the checks are forced, answered.
  pub record IsChecked (urls us : List Text) (user password : Text) (force : Bool) (net : heads.Net)
      : Type 0 where
    pub client : heads.Client
    pub is_client : new_client heads trust_policy_root_file ≡ ok client
    pub built : AllBuilt heads user password urls us
    pub answered : (force ≡ true) ⊎ AllAnswered heads client us net

  -- The EFI variables are touched only when every URL was built with the credentials and, unless
  -- the checks are forced, answered; then the host name and the configuration that points to exactly
  -- these URLs are persisted, whose outcome is that of `commitConfig`.
  pub commit_config-persist :
      (host_name : Text) (config : Text → host.Config) (urls : List Text) (user password : Text)
      (force : Bool) (net : heads.Net) (nvram : efi.State)
      → let r =
          commit_config heads efi host host_name config urls user password force (net, nvram) in
        ((e : Error) × (r.0 ≡ err e) × (r.1.1 ≡ nvram))
        ⊎ ((us : List Text) × IsChecked urls us user password force net
            × (host_name ≢ [])
            × (r.0 ≡ (persist heads efi host host_name (config (join us (codes ","))) nvram).0)
            × (r.1.1 ≡ (persist heads efi host host_name (config (join us (codes ","))) nvram).1))
  unfolding commit_config
  commit_config-persist [] config urls user password force net nvram =
      inl (msg (codes "host name is a required option"), refl, refl)
  commit_config-persist (x ∷ name) config urls user password force net nvram =
      elim (Result-cases (new_client heads trust_policy_root_file)) [
        | inr (e, q) ↦ inl (Error.wrap (codes "configure tls client") e, rw q refl, rw q refl)
        | inl (client, q) ↦
            elim (Result-cases (checked_urls heads client force user password urls net).0) [
              | inr (e, r) ↦ inl (e, rw (q, r) refl, rw (q, r) refl)
              | inl (us, r) ↦
                  let (built, answered) =
                    checked_urls-eq_ok heads client force user password urls net us r in
                  inr (
                    us,
                    record { client = client; is_client = q; built = built; answered = answered },
                    ground arith,
                    rw (q, r) refl,
                    rw (q, r) refl,
                  )
            ]
      ]

  module _ (store : IsStore efi) where
    -- The variable of the host configuration is another one than that of the host name, and its
    -- JSON is read back.
    pub record IsHost (var : Text × efi.Guid) : Type 0 where
      pub is_var : host_config_efi_variable_name efi host ≡ ok var
      pub other : var.0 ≢ efi_host_name
      pub json :
          (c : host.Config) {b : Bytes}
          → host.marshal_config c ≡ ok b
          → host.unmarshal_config b ≡ ok c

    -- The host name and the configuration are read back.
    abbrev pub IsPersisted : Text × efi.Guid → Text → host.Config → efi.State → Type 0
    IsPersisted var host_name cfg s =
        (read_host_name efi var.1 efi_host_name s ≡ ok host_name)
        × (host_config efi host s ≡ ok cfg)

    persist-IsPersisted :
        (var : Text × efi.Guid)
        → IsHost var
        → (host_name : Text) (cfg : host.Config) (s : efi.State)
        → (persist heads efi host host_name cfg s).0 ≡ ok tt
        → IsPersisted var host_name cfg (persist heads efi host host_name cfg s).1
    unfolding persist
    persist-IsPersisted var v host_name cfg s h =
        let named = write_host_name efi host_name var.1 efi_host_name s in
        elim (Result-cases named.0) [
          | inr (e, q) ↦ absurd (ground (arith, v.is_var))
          | inl (u, q) ↦ elim (Result-cases (host.marshal_config cfg)) [
            | inr (e, m) ↦ absurd (unfold write_host_config in ground (arith, v.is_var))
            | inl (b, m) ↦
                let configured : (write_host_config efi host cfg named.1).0 ≡ ok tt =
                  ground (arith, v.is_var) in
                rw (v.is_var, q)
                  (host_name-host_config efi store host cfg host_name efi_host_name var.1 s v.is_var
                    v.other m (v.json cfg m) q configured)
          ]
        ]

    -- When `commitConfig` succeeds, the host name and the configuration that points to the checked
    -- URLs, in order and with commas between them, are read back.
    pub commit_config-IsPersisted :
        (var : Text × efi.Guid)
        → IsHost var
        → (host_name : Text) (config : Text → host.Config) (urls : List Text) (user password : Text)
          (force : Bool) (net : heads.Net) (nvram : efi.State)
        → (commit_config heads efi host host_name config urls user password force (net, nvram)).0
          ≡ ok tt
        → (us : List Text) × IsChecked urls us user password force net
          × IsPersisted var host_name
              (config (join us (codes ",")))
              (commit_config heads efi host host_name config urls user password force
                (net, nvram)).1.1
    commit_config-IsPersisted var v host_name config urls user password force net nvram h =
        elim (commit_config-persist host_name config urls user password force net nvram) [
          | inl (e, q, same) ↦ absurd (ground arith)
          | inr (us, checked, named, result, state) ↦ (
            us,
            checked,
            rw state (
                persist-IsPersisted var v host_name (config (join us (codes ","))) nvram
                  (sym result ∙ h)),
          )
        ]
