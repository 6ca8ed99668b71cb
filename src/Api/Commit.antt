-- ===== src/Api/Commit.antt =====
-- `handleCommit` (internal/api/handler.go).
use stprov.Prelude.{
  ◌+◌, none, some, [], ◌∷◌, ◌++◌, Bytes, Error, ok, Result-cases, Option-cases, wrap, codes, ap,
  ◌⊎◌, inl, inr, ◌≡◌, refl, arith,
}
use stprov.Secrets.{new_unique_device_secret}
use stprov.Api.{CommitResponse, new_commit_response}
use stprov.Api.Server.{Platform, write, Request, World}
use stprov.Api.Handler.{
  Outcome, handle_commit, commit_secret, commit_response, commit_marshalled, commit_with, status_ok,
  status_internal_server_error,
}

module _ (p : Platform) where
  -- A fresh secret, the response for it, and its JSON, all made without error.
  pub record Committed (w : World p) : Type 0 where
    pub uds : Bytes
    pub response : CommitResponse
    pub body : Bytes
    pub is_secret : (new_unique_device_secret p.crypto w.server.entropy w.rand).0 ≡ ok uds
    pub is_response : new_commit_response p.crypto uds w.server.host_name ≡ ok response
    pub is_body : p.json.marshal_commit response ≡ ok body
    pub is_written : w.write_error ≡ none

  abbrev pub after_commit : (w : World p) → Committed w → World p
  after_commit w c = record w {
    rand = (new_unique_device_secret p.crypto w.server.entropy w.rand).1;
    response = w.response ++ write c.body ∷ [];
    server = record (w.server) { uds = some c.uds; commit = w.server.commit + 1 };
  }

  abbrev pub after_failure : World p → World p
  after_failure w = record w {
    rand = (new_unique_device_secret p.crypto w.server.entropy w.rand).1;
  }

  pub handle_commit-cases :
      (r : Request) (w : World p)
      → ((c : Committed w) × (handle_commit p r w ≡ ((status_ok, none), after_commit w c)))
        ⊎ ((e : Error) × (handle_commit p r w
              ≡ ((status_internal_server_error, some e), after_failure w)))
  unfolding handle_commit
  handle_commit-cases r w =
      let host = w.server.host_name in
      elim (Result-cases (new_unique_device_secret p.crypto w.server.entropy w.rand).0) [
        | inr (e, a) ↦ inr (wrap (codes "new unique device secret") e, rw (a, commit_secret) refl)
        | inl (uds, a) ↦ elim (Result-cases (new_commit_response p.crypto uds host)) [
          | inr (e, b) ↦
              inr (
                wrap (codes "new commit response") e,
                rw (a, commit_secret, b, commit_response) refl,
              )
          | inl (cr, b) ↦ elim (Result-cases (p.json.marshal_commit cr)) [
            | inr (e, c) ↦ inr (
              wrap (codes "marshal commit response") e,
              rw (a, commit_secret, b, commit_response, c, commit_marshalled) refl,
            )
            | inl (body, c) ↦ elim (Option-cases w.write_error) [
              | inr (e, d) ↦ inr (
                wrap (codes "write commit response") e,
                rw (a, commit_secret, b, commit_response, c, commit_marshalled, d, commit_with)
                    refl,
              )
              | inl d ↦ inl (
                record {
                  uds = uds;
                  response = cr;
                  body = body;
                  is_secret = a;
                  is_response = b;
                  is_body = c;
                  is_written = d;
                },
                rw (a, commit_secret, b, commit_response, c, commit_marshalled, d, commit_with)
                    refl,
              )
            ]
          ]
        ]
      ]

  -- A commit that is answered with 200 keeps the secret that it mixed from the local entropy and
  -- the entropy of the server, sends the response that is derived from that very secret, and
  -- signals the commit once; the EFI variables are not touched.
  pub handle_commit-commits :
      (r : Request) (w : World p)
      → (handle_commit p r w).0 ≡ (status_ok, none)
      → (c : Committed w) × ((handle_commit p r w).1 ≡ after_commit w c)
  handle_commit-commits r w h = elim (handle_commit-cases r w) [
    | inl (c, e) ↦ (c, ap (λ (t : Outcome × World p). t.1) e)
    | inr (f, e) ↦ absurd (ground (arith, ap (λ (t : Outcome × World p). t.0) e))
  ]

  -- Where everything that a commit needs is made without error, it is committed.
  pub handle_commit-Committed :
      (r : Request) (w : World p) (c : Committed w)
      → handle_commit p r w ≡ ((status_ok, none), after_commit w c)
  unfolding handle_commit
  handle_commit-Committed r w c =
      rw
        (
          c.is_secret, commit_secret, c.is_response, commit_response, c.is_body, commit_marshalled,
          c.is_written, commit_with,
        )
        refl
