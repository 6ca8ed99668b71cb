-- ===== src/Together/Client.antt =====
-- What the exchanges of `stprov local run` (subcmd/local/run/run.go, internal/api/client.go) do to
-- what is at the other end, they do by sending requests.
use stprov.Prelude.{
  Bool, [], ◌++◌, Text, Bytes, Result, ok, err, Result-cases, Bool-cases, inl, inr, ◌≡◌, refl,
  arith,
}
use stprov.Prelude.Int.{ℤ}
use stprov.Prelude.Exec.{Exec}
use stprov.Crypto.{Crypto}
use stprov.Api.{
  CommitResponse, endpoint_add_data, endpoint_add_secure_boot, endpoint_commit, basic_auth_user,
  new_add_data_request, new_add_secure_boot_request,
}
use stprov.Api.Server.{method_get, method_post}
use stprov.Local.Run.{exchanges}
use stprov.Api.Client.{
  Client, commit, Outgoing, Transport, send, do_request, do_get, do_post, add_data,
  add_secure_boot_keys,
}

module _ {Remote : Type 0} (crypto : Crypto) (t : Transport Remote) (P : Remote → Type 0)
    (Q : Text → Type 0)
    (keeps : (o : Outgoing) (r : Remote) → Q o.url → P r → P (t.perform o r).1) where
  -- The action leaves what is at the other end in `P`.
  abbrev Keeps : {A : Type 0} → Exec (crypto.Reader × Remote) A → Type 0
  Keeps m = (s : crypto.Reader × Remote) → P s.1 → P (m s).1.1

  do_request-Keeps : (o : Outgoing) → Q o.url → Keeps (do_request crypto t o)
  unfolding do_request send
  do_request-Keeps o at s h = grind (arith, keeps o s.1 at h)

  do_post-Keeps :
      (c : Client crypto) (url : Text) (marshalled : Result Bytes)
      → Q url
      → Keeps (do_post crypto t c url marshalled)
  unfolding do_post
  do_post-Keeps c url (err e) at s h = h
  do_post-Keeps c url (ok b) at s h = elim (Result-cases (t.new_request method_post url)) [
    | inr (e, q) ↦ rw q h
    | inl (u, q) ↦ rw q (do_request-Keeps _ at s h)
  ]

  pub add_data-Keeps :
      (c : Client crypto) (now : ℤ)
      → Q (c.server_url ++ endpoint_add_data)
      → Keeps (add_data crypto t c now)
  unfolding add_data
  add_data-Keeps c now at s h = elim (Result-cases (new_add_data_request crypto now s.0).0) [
    | inr (e, q) ↦ rw q h
    | inl (r, q) ↦
        let s' : crypto.Reader × Remote = ((new_add_data_request crypto now s.0).1, s.1) in
        let url = c.server_url ++ endpoint_add_data in
        let kept = do_post-Keeps c url (t.json.marshal_add_data r) at s' h in
        elim (Result-cases (do_post crypto t c url (t.json.marshal_add_data r) s').0) [
          | inr (e, q') ↦ rw (q, q') kept
          | inl (b, q') ↦ rw (q, q') kept
        ]
  ]

  pub add_secure_boot_keys-Keeps :
      (c : Client crypto)
      → Q (c.server_url ++ endpoint_add_secure_boot)
      → Keeps (add_secure_boot_keys crypto t c)
  unfolding add_secure_boot_keys
  add_secure_boot_keys-Keeps c at s h =
      let made = new_add_secure_boot_request c.pk c.kek c.db c.dbx c.reboot_into_uefi_menu in
      elim (Result-cases made) [
        | inr (e, q) ↦ rw q h
        | inl (r, q) ↦
            let url = c.server_url ++ endpoint_add_secure_boot in
            let marshalled = t.json.marshal_add_secure_boot r in
            let kept = do_post-Keeps c url marshalled at s h in
            elim (Result-cases (do_post crypto t c url marshalled s).0) [
              | inr (e, q') ↦ rw (q, q') kept
              | inl (b, q') ↦ rw (q, q') kept
            ]
      ]

  -- What `commit` sends.
  abbrev asked : Client crypto → Outgoing
  asked c = record {
    method = method_get;
    url = c.server_url ++ endpoint_commit;
    user = basic_auth_user;
    password = c.basic_auth_password;
    body = [];
  }

  pub commit-Keeps :
      (c : Client crypto) → Q (c.server_url ++ endpoint_commit) → Keeps (commit crypto t c)
  unfolding commit do_get
  commit-Keeps c at s h =
      let url = c.server_url ++ endpoint_commit in
      let kept = do_request-Keeps (asked c) at s h in
      elim (Result-cases (t.new_request method_get url)) [
        | inr (e, q) ↦ rw q h
        | inl (u, q) ↦ elim (Result-cases (do_request crypto t (asked c) s).0) [
          | inr (e, q') ↦ rw (q, q') kept
          | inl (b, q') ↦ rw (q, q') kept
        ]
      ]

  -- Where the exchanges end well, the commit did, at a state that the exchanges before it left in `P`.
  pub exchanges-commit :
      (c : Client crypto) (now : ℤ) (have_sb : Bool) (s : crypto.Reader × Remote)
      {cr : CommitResponse}
      → ((url : Text) → Q url)
      → P s.1
      → (exchanges crypto t now c have_sb s).0 ≡ ok cr
      → (s' : crypto.Reader × Remote) × P s'.1
        × ((commit crypto t c s').0 ≡ ok cr)
        × ((exchanges crypto t now c have_sb s).1 ≡ (commit crypto t c s').1)
  unfolding exchanges
  exchanges-commit c now have_sb s {cr} any h done =
      let a = add_data crypto t c now s in
      elim (Result-cases a.0) [
        | inr (e, q) ↦ absurd (ground arith)
        | inl (d, q) ↦ elim (Bool-cases have_sb) [
          | inr f ↦ (a.1, add_data-Keeps c now (any _) s h, ground arith, rw (q, f) refl)
          | inl y ↦
              let k = add_secure_boot_keys crypto t c a.1 in
              elim (Result-cases k.0) [
                | inr (e, q') ↦ absurd (ground arith)
                | inl (u, q') ↦ (
                  k.1,
                  add_secure_boot_keys-Keeps c (any _) a.1 (add_data-Keeps c now (any _) s h),
                  ground arith,
                  rw (q, y, q') refl,
                )
              ]
        ]
      ]
