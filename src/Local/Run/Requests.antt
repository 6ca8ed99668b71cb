-- ===== src/Local/Run/Requests.antt =====
-- The requests that `stprov local run` sends (subcmd/local/run/run.go).
use stprov.Prelude.{
  Bool, true, false, List, [], ◌∷◌, ◌++◌, Text, length, take, if◌then◌else◌, ok, ◌≡◌, arith,
}
use stprov.Prelude.Int.{ℤ}
use stprov.Crypto.{Crypto}
use stprov.Api.{CommitResponse, endpoint_add_data, endpoint_add_secure_boot, endpoint_commit}
use stprov.Api.Server.{method_get, method_post}
use stprov.Api.Client.{
  Client, Transport, send, do_request, do_get, do_post, add_data, add_secure_boot_keys, commit,
}
use stprov.Local.Run.{exchanges}

-- The method and the URL of a request.
abbrev pub Sent : Type 0
Sent = Text × Text

-- The same connection, which also keeps what was sent, in order.
abbrev pub logged : {Remote : Type 0} → Transport Remote → Transport (Remote × List Sent)
logged t = record {
  json = t.json;
  new_request = t.new_request;
  perform = λ o s. ((t.perform o s.0).0, ((t.perform o s.0).1, s.1 ++ (o.method, o.url) ∷ []));
}

module _ {Remote : Type 0} (crypto : Crypto) (t : Transport Remote) (c : Client crypto)
    (now : ℤ) where
  abbrev pub plan : Bool → List Sent
  plan have_sb =
      (method_post, c.server_url ++ endpoint_add_data)
        ∷ (if have_sb then (method_post, c.server_url ++ endpoint_add_secure_boot) ∷ [] else [])
      ++ (method_get, c.server_url ++ endpoint_commit) ∷ []

  abbrev pub sent : Bool → crypto.Reader → Remote → List Sent
  sent have_sb rand r = (exchanges crypto (logged t) now c have_sb (rand, (r, []))).1.1.1

  -- Whatever happens, the requests that are sent are the first so many of: the data, the Secure Boot
  -- keys if there are any, the commit.
  pub exchanges-prefix :
      (have_sb : Bool) (rand : crypto.Reader) (r : Remote)
      → take (length (sent have_sb rand r)) (plan have_sb) ≡ sent have_sb rand r
  unfolding exchanges add_data add_secure_boot_keys commit do_post do_get do_request send
  exchanges-prefix false rand r = ground arith
  exchanges-prefix true rand r = ground arith

  -- If the exchanges succeed, all of those requests were sent.
  pub exchanges_complete :
      (have_sb : Bool) (rand : crypto.Reader) (r : Remote)
      → (cr : CommitResponse)
      → (exchanges crypto (logged t) now c have_sb (rand, (r, []))).0 ≡ ok cr
      → sent have_sb rand r ≡ plan have_sb
  unfolding exchanges add_data add_secure_boot_keys commit do_post do_get do_request send
  exchanges_complete false rand r cr h = ground arith
  exchanges_complete true rand r cr h = ground arith
