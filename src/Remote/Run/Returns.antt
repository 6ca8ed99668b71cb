-- ===== src/Remote/Run/Returns.antt =====
-- When the server of `stprov remote run` returns (subcmd/remote/run/run.go, internal/api/server.go).
use stprov.Prelude.{
  ◌+◌, ◌≤◌, false, none, some, List, ◌∷◌, ◌++◌, Text, length, ok, ◌==◌, ◌≡◌, refl, arith,
}
use stprov.Secrets.{entropy_bytes}
use stprov.Api.{endpoint_commit}
use stprov.Api.Server.{Platform, Request, World, method_get}
use stprov.Api.Handler.{Handler, path_of, handle_commit, serve, finish}
use stprov.Api.Access.{IsAllowed, serve_http-allowed}
use stprov.Api.Commit.{Committed, handle_commit-Committed}
use stprov.Api.Invariant.{serve_all, serve_all-append}
use stprov.Api.Provisioning.{Trace-commits, Trace-size, Step-size}
use stprov.Api.Refinement.{serve-Steps, serve_all-Trace}
use stprov.Remote.Run.{Session, run_server}

module _ (p : Platform) where
  abbrev pub commit_handler : Handler p
  commit_handler = record {
    endpoint = endpoint_commit;
    method = method_get;
    handler_func = handle_commit p;
  }

  serve-commit :
      (r : Request) (w : World p)
      → IsAllowed p commit_handler r w
      → Committed p w
      → (serve p (path_of p endpoint_commit) r w).server.commit ≡ w.server.commit + 1
  unfolding serve finish
  serve-commit r w a c =
      rw (serve_http-allowed p commit_handler r w a, handle_commit-Committed p r w c) refl

  serve_all-size :
      (rs : List (Text × Request)) (w : World p)
      → length w.server.entropy ≡ entropy_bytes
      → length (serve_all p rs w).server.entropy ≡ entropy_bytes
  serve_all-size rs w size =
      Trace-size p w.server.local_cidr w.server.basic_auth_password (serve_all-Trace p rs w size)
        size

  serve_all-commits :
      (rs : List (Text × Request)) (w : World p)
      → length w.server.entropy ≡ entropy_bytes
      → w.server.commit ≤ (serve_all p rs w).server.commit
  serve_all-commits rs w size =
      Trace-commits p w.server.local_cidr w.server.basic_auth_password (serve_all-Trace p rs w size)

  -- A server that does not die returns if, among the requests, there is a commit by a client at a
  -- time when all that the commit needs is made without error; it returns what all the requests,
  -- those that still came before it was shut down included, have made of it.
  pub run_server-returns :
      (session : Session p) (w : World p) (before after : List (Text × Request)) (r : Request)
      → session.died ≡ none
      → length w.server.entropy ≡ entropy_bytes
      → session.arrivals ≡ before ++ (path_of p endpoint_commit, r) ∷ after
      → IsAllowed p commit_handler r (serve_all p before w)
      → Committed p (serve_all p before w)
      → run_server p session w ≡ some (ok (serve_all p session.arrivals w))
  unfolding run_server
  run_server-returns session w before after r alive size arrivals a c =
      let u = serve_all p before w in
      let v = serve p (path_of p endpoint_commit) r u in
      let at_u = serve_all-size before w size in
      let at_v = Step-size (serve-Steps p (path_of p endpoint_commit) r u at_u) at_u in
      let same : serve_all p session.arrivals w ≡ serve_all p after v = rw arrivals (
        unfold serve_all in serve_all-append p before ((path_of p endpoint_commit, r) ∷ after) w) in
      let signalled : ((serve_all p after v).server.commit == 0) ≡ false =
        ground (arith, serve-commit r u a c, serve_all-commits after v at_v) in
      rw (alive, same, signalled) refl
