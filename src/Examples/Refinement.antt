-- ===== src/Examples/Refinement.antt =====
-- Examples for the server as an abstract machine, and for when it returns.
use stprov.Prelude.{
  false, none, some, List, [], ◌∷◌, Text, Bytes, codes, replicate, ok, inl, ◌≡◌, refl,
}
use stprov.Api.{endpoint_add_data, endpoint_commit}
use stprov.Api.Server.{Request}
use stprov.Api.Handler.{path_of}
use stprov.Api.Access.{IsAllowed}
use stprov.Api.Commit.{Committed}
use stprov.Api.Invariant.{serve_all}
use stprov.Api.Provisioning.{Trace, nothing}
use stprov.Api.Refinement.{view, created-Trace, IsAsked, created-IsAsked}
use stprov.Api.Lifecycle.{Lifecycle, Reachable, IsReturned}
use stprov.Api.Lifecycle.Returned.{IsTold, returned-IsTold, overwritten-Reachable}
use stprov.Remote.Run.{run_server}
use stprov.Remote.Run.Returns.{commit_handler, run_server-returns}
use stprov.Examples.Machine.{machine, lab, lab_net}
use stprov.Examples.Session.{world, posted, lab_config, lab_password, new_server-lab_config}
use stprov.Examples.Exchange.{lab_session}

abbrev committing : Request
committing = record (posted []) { method = codes "GET" }

abbrev arrivals : List (Text × Request)
arrivals =
    (path_of machine endpoint_add_data, posted (0 ∷ 1700000000 ∷ replicate 32 5))
    ∷ (path_of machine endpoint_commit, committing)
    ∷ []

created-Trace_example :
    Trace machine
      (lab_net ∷ [])
      lab_password
      arrivals
      nothing
      (view (serve_all machine arrivals world).server)
created-Trace_example = created-Trace machine lab lab_config arrivals world new_server-lab_config

abbrev secret_of : Bytes
secret_of = elim (serve_all machine lab_session.arrivals world).server.uds [
  | none ↦ []
  | some uds ↦ uds
]

created-IsAsked_example :
    IsAsked machine lab_session.arrivals world secret_of × (world.server.config ≡ lab_config)
unfolding serve_all stprov.Api.Handler.serve stprov.Api.Handler.serve_http
    stprov.Api.Handler.verify_method stprov.Api.Handler.verify_network stprov.Net.net_contains
    stprov.Api.Handler.authenticate_user stprov.Api.Handler.finish stprov.Api.Handler.handle_commit
    stprov.Api.new_commit_response stprov.Secrets.new_unique_device_secret stprov.Secrets.identity
    stprov.Secrets.derive stprov.Secrets.authentication stprov.Secrets.ssh_host_key
    stprov.Ssh.new_host_key stprov.Ssh.fingerprint stprov.Ssh.public_key stprov.Ssh.public_key_of
    stprov.Secrets.hex_encode stprov.Secrets.hex_digit
created-IsAsked_example =
    created-IsAsked machine lab lab_config lab_session.arrivals world secret_of
      new_server-lab_config refl

committing-IsAllowed : IsAllowed machine (commit_handler machine) committing world
unfolding stprov.Net.net_contains
committing-IsAllowed = record {
  same_method = refl;
  host = codes "10.0.0.7";
  ip = 10 ∷ 0 ∷ 0 ∷ 7 ∷ [];
  is_host = refl;
  is_ip = refl;
  inside = inl refl;
  credentials = refl;
}

world-Committed : Committed machine world
unfolding stprov.Api.new_commit_response stprov.Secrets.new_unique_device_secret
    stprov.Secrets.derive stprov.Secrets.identity stprov.Secrets.authentication
    stprov.Secrets.ssh_host_key stprov.Ssh.new_host_key stprov.Ssh.fingerprint stprov.Ssh.public_key
    stprov.Ssh.public_key_of
world-Committed = record {
  uds = _;
  response = _;
  body = _;
  is_secret = refl;
  is_response = refl;
  is_body = refl;
  is_written = refl;
}

run_server-returns_example :
    run_server machine lab_session world ≡ some (ok (serve_all machine lab_session.arrivals world))
unfolding serve_all
run_server-returns_example =
    run_server-returns machine lab_session world [] [] committing refl refl refl
      committing-IsAllowed world-Committed

overwritten-Reachable_example :
    (l : Lifecycle) × Reachable l
    × IsReturned l
    × (l.died ≡ false)
    × (l.told ≡ (1 ∷ []) ∷ [])
    × (l.lost ≡ (2 ∷ []) ∷ [])
    × (l.uds ≡ some (2 ∷ []))
overwritten-Reachable_example = overwritten-Reachable (1 ∷ []) (2 ∷ [])

-- A run in which two commits were made.
abbrev twice :
    (l : Lifecycle) × Reachable l
    × IsReturned l
    × (l.died ≡ false)
    × (l.told ≡ (1 ∷ []) ∷ [])
    × (l.lost ≡ (2 ∷ []) ∷ [])
    × (l.uds ≡ some (2 ∷ []))
twice = overwritten-Reachable (1 ∷ []) (2 ∷ [])

returned-IsTold_example : IsTold twice.0
returned-IsTold_example = returned-IsTold twice.0 twice.1 twice.2 twice.3
