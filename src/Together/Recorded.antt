-- ===== src/Together/Recorded.antt =====
-- The connection of a client with the server of the platform, which also keeps the requests as they
-- arrive (internal/api/client.go, internal/api/server.go).
use stprov.Prelude.{
  List, [], ◌∷◌, ◌++◌, Text, Result, Result-cases, Bool-cases, ◌==◌, inl, inr, ◌≡◌, refl,
}
use stprov.Api.{endpoint_commit}
use stprov.Api.Server.{Platform, Request, World, method_get}
use stprov.Api.Handler.{serve, status_ok}
use stprov.Api.Client.{Client, Outgoing, Transport, commit, do_get, do_request, send}
use stprov.Api.Exchange.{Link, connection, answered, incoming, status_of}
use stprov.Api.Invariant.{serve_all, serve_all-append}
use stprov.Api.Response.{fresh, serve-congr}

module _ (p : Platform) (link : Link) where
  -- The world, and the requests so far.
  abbrev pub Recorded : Type 0
  Recorded = World p × List (Text × Request)

  abbrev arrival : Outgoing → Text × Request
  arrival o = (link.url_path o.url, incoming p link o)

  abbrev pub recorded : Transport Recorded
  recorded = record {
    json = p.json;
    new_request = link.new_request;
    perform = λ o s. (
      ((connection p link).perform o s.0).0,
      (((connection p link).perform o s.0).1, s.1 ++ arrival o ∷ []),
    );
  }

  -- But for the response, the world is what the requests have made of the first one.
  abbrev pub IsServed : World p → Recorded → Type 0
  IsServed w s = fresh s.0 ≡ fresh (serve_all p s.1 w)

  pub IsServed-perform :
      (w : World p) (o : Outgoing) (s : Recorded)
      → IsServed w s
      → IsServed w (recorded.perform o s).1
  IsServed-perform w o s h =
      let (path, r) = arrival o in
      let v = serve_all p s.1 w in
      let last : serve_all p (s.1 ++ arrival o ∷ []) w ≡ serve p path r v =
        unfold serve_all in serve_all-append p s.1 (arrival o ∷ []) w in
      rw last (serve-congr p path r (fresh s.0) v h)

  -- What an action does over the one connection, it does over the other.
  abbrev IsSame :
      {A : Type 0}
      → Result A × (p.crypto.Reader × Recorded)
      → Result A × (p.crypto.Reader × World p)
      → Type 0
  IsSame r r' = (r.0 ≡ r'.0) × (r.1.1.0 ≡ r'.1.1)

  do_request-recorded :
      (o : Outgoing) (rand : p.crypto.Reader) (s : Recorded)
      → IsSame
          (do_request p.crypto recorded o (rand, s))
          (do_request p.crypto (connection p link) o (rand, s.0))
  unfolding do_request send
  do_request-recorded o rand s =
      elim (Bool-cases (status_of (answered p link o s.0).response == status_ok)) [
        | inl t ↦ (rw t refl, rw t refl)
        | inr f ↦ (rw f refl, rw f refl)
      ]

  do_get-recorded :
      (c : Client p.crypto) (url : Text) (rand : p.crypto.Reader) (s : Recorded)
      → IsSame
          (do_get p.crypto recorded c url (rand, s))
          (do_get p.crypto (connection p link) c url (rand, s.0))
  unfolding do_get
  do_get-recorded c url rand s = elim (Result-cases (link.new_request method_get url)) [
    | inr (e, q) ↦ (rw q refl, rw q refl)
    | inl (u, q) ↦ let same = do_request-recorded _ rand s in (rw q same.0, rw q same.1)
  ]

  pub commit-recorded :
      (c : Client p.crypto) (rand : p.crypto.Reader) (s : Recorded)
      → IsSame
          (commit p.crypto recorded c (rand, s))
          (commit p.crypto (connection p link) c (rand, s.0))
  unfolding commit
  commit-recorded c rand s =
      let url = c.server_url ++ endpoint_commit in
      let same = do_get-recorded c url rand s in
      elim (Result-cases (do_get p.crypto (connection p link) c url (rand, s.0)).0) [
        | inr (e, q) ↦ (rw (same.0, q) refl, rw (same.0, q) same.1)
        | inl (b, q) ↦ (rw (same.0, q) refl, rw (same.0, q) same.1)
      ]
