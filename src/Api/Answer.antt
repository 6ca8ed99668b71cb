-- ===== src/Api/Answer.antt =====
-- What the operator is told by the last exchange: the client of internal/api/client.go and the server
-- of internal/api/handler.go.
use stprov.Prelude.{
  ◌+◌, false, some, List, [], ◌++◌, Text, Bytes, append-nil, ok, Result-cases, ◌⊎◌, inl, inr, ◌≡◌,
  refl, arith, ◌==◌,
}
use stprov.Ssh.{HostKey, fingerprint, public_key}
use stprov.Secrets.{ssh_host_key, new_unique_device_secret, identity, authentication}
use stprov.Api.{IsJson, basic_auth_user, CommitResponse, endpoint_commit, new_commit_response}
use stprov.Api.Server.{Platform, Event, World, method_get}
use stprov.Api.Handler.{Handler, handle_commit, serve, serve_http, finish, path_of, status_ok}
use stprov.Api.Client.{Client, Outgoing, commit, do_get, do_request, send}
use stprov.Api.Access.{
  IsRefusal, bad_method, wrong_method, bad_address, forbidden, serve_http-cases, serve_http-allowed,
}
use stprov.Api.Commit.{Committed, after_commit, handle_commit-cases}
use stprov.Api.Exchange.{Link, connection, status_of, answered, incoming}

pub status_of-refused :
    {m : Text} {events : List Event} → IsRefusal m events → (status_of events == status_ok) ≡ false
status_of-refused bad_method = refl
status_of-refused wrong_method = refl
status_of-refused (bad_address t) = refl
status_of-refused (forbidden t) = refl

module _ (p : Platform) (link : Link) where
  abbrev commit_handler : Handler p
  commit_handler = record {
    endpoint = endpoint_commit;
    method = method_get;
    handler_func = handle_commit p;
  }

  abbrev fresh : World p → World p
  fresh w = record w { response = [] }

  -- The answer to a request for a commit is no 200, or the commit was made.
  answered-commit :
      (o : Outgoing) (w : World p)
      → link.url_path o.url ≡ path_of p endpoint_commit
      → ((status_of (answered p link o w).response == status_ok) ≡ false)
        ⊎ ((c : Committed p (fresh w)) × (answered p link o w ≡ after_commit p (fresh w) c))
  answered-commit o w routed =
      let r = incoming p link o in
      let same : answered p link o w ≡ serve_http p commit_handler r (fresh w) =
        unfold serve in rw routed refl in
      elim (serve_http-cases p commit_handler r (fresh w)) [
        | inr (events, refusal, e) ↦ inl (rw (same, e) (status_of-refused refusal))
        | inl a ↦
            let allowed = serve_http-allowed p commit_handler r (fresh w) a in
            elim (handle_commit-cases p r (fresh w)) [
              | inl (c, q) ↦ inr (c, rw (same, allowed, q) (unfold finish in refl))
              | inr (e, q) ↦ inl (rw (same, allowed, q) (unfold finish in refl))
            ]
      ]

  -- The response is about the host key of this secret, which the server keeps.
  pub record IsAnswer (cr : CommitResponse) (w w' : World p) : Type 0 where
    pub uds : Bytes
    pub is_secret : (new_unique_device_secret p.crypto w.server.entropy w.rand).0 ≡ ok uds
    pub host_key : HostKey
    pub is_host_key : ssh_host_key p.crypto uds ≡ ok host_key
    pub same_public_key : public_key p.crypto host_key ≡ ok cr.public_key
    pub same_fingerprint : fingerprint p.crypto host_key ≡ ok cr.fingerprint
    pub same_host_name : cr.host_name ≡ w.server.host_name
    pub server_kept : w'.server ≡ record (w.server) { uds = some uds; commit = w.server.commit + 1 }
    pub nvram_kept : w'.nvram ≡ w.nvram

  -- Where the response for a secret comes from.
  new_commit_response-eq_ok :
      (uds : Bytes) (host_name : Text) {cr : CommitResponse}
      → new_commit_response p.crypto uds host_name ≡ ok cr
      → (hk : HostKey) × (ssh_host_key p.crypto uds ≡ ok hk)
        × (public_key p.crypto hk ≡ ok cr.public_key)
        × (fingerprint p.crypto hk ≡ ok cr.fingerprint)
        × (cr.host_name ≡ host_name)
  unfolding new_commit_response
  new_commit_response-eq_ok uds host_name {cr} h = elim (Result-cases (ssh_host_key p.crypto uds)) [
    | inr (e, q) ↦ absurd (ground arith)
    | inl (hk, q) ↦ elim (Result-cases (fingerprint p.crypto hk)) [
      | inr (e, q1) ↦ absurd (ground arith)
      | inl (fpr, q1) ↦ elim (Result-cases (public_key p.crypto hk)) [
        | inr (e, q2) ↦ absurd (ground arith)
        | inl (pk, q2) ↦ elim (Result-cases (identity p.crypto uds)) [
          | inr (e, q3) ↦ absurd (ground arith)
          | inl (id, q3) ↦ elim (Result-cases (authentication p.crypto uds)) [
            | inr (e, q4) ↦ absurd (ground arith)
            | inl (auth, q4) ↦ (hk, q, ground arith, ground arith, ground arith)
          ]
        ]
      ]
    ]
  ]

  -- What the client sends.
  abbrev asked : Client p.crypto → Outgoing
  asked c = record {
    method = method_get;
    url = c.server_url ++ endpoint_commit;
    user = basic_auth_user;
    password = c.basic_auth_password;
    body = [];
  }

  -- If the client's commit succeeds, the server made one commit for it, of a secret that it mixed and
  -- keeps, and the public key and the fingerprint that the client is told are those of the host key
  -- of that very secret, with the server's host name; no EFI variable was written yet.
  pub commit-IsAnswer :
      (is_json : IsJson p.json) (c : Client p.crypto) (rand : p.crypto.Reader) (w : World p)
      (cr : CommitResponse)
      → link.url_path (c.server_url ++ endpoint_commit) ≡ path_of p endpoint_commit
      → let result = commit p.crypto (connection p link) c (rand, w) in
        (result.0 ≡ ok cr) → IsAnswer cr w result.1.1
  unfolding commit do_get do_request send
  commit-IsAnswer is_json c rand w cr routed h =
      elim (Result-cases (link.new_request method_get (c.server_url ++ endpoint_commit))) [
        | inr (e, q) ↦ absurd (ground arith)
        | inl (u, q) ↦ elim (answered-commit (asked c) w routed) [
          | inl refused ↦ absurd (ground (arith, refused))
          | inr (made, e) ↦
              let read = is_json.commit made.response made.is_body in
              let (hk, is_key, pk, fpr, name) =
                new_commit_response-eq_ok made.uds w.server.host_name made.is_response in
              let run : commit p.crypto (connection p link) c (rand, w)
                  ≡ (ok made.response, (rand, after_commit p (fresh w) made)) =
                rw (q, e, append-nil made.body, read) refl in
              let same : made.response ≡ cr = ground (arith, run) in
              rw (run, ← same)
                (record {
                  uds = made.uds;
                  is_secret = made.is_secret;
                  host_key = hk;
                  is_host_key = is_key;
                  same_public_key = pk;
                  same_fingerprint = fpr;
                  same_host_name = name;
                  server_kept = refl;
                  nvram_kept = refl;
                })
        ]
      ]
