-- ===== src/Cmd/Exits.antt =====
-- What the operator sees of `stprov local run` (cmd/stprov/main.go, subcmd/local/local.go).
use stprov.Prelude.{
  Bool, Option, some, List, [], ◌∷◌, ◌++◌, Text, codes, Error, Result, ok, err, if◌then◌else◌,
  Result-cases, ◌⊎◌, inl, inr, ◌≡◌, refl,
}
use stprov.Prelude.Int.{ℤ}
use stprov.Net.{Net}
use stprov.Crypto.{Crypto}
use stprov.Api.Client.{Transport}
use stprov.Local.Main as Local
use stprov.Local.Run
use stprov.Local.Run.{Options, FileRead}
use stprov.Cmd.{Exit, error_text, main, report}

module _ (net : Net) (read_file : Text → FileRead) (quoted : Text → Text)
    (is_unknown_authority : Error → Bool) (version usage : Text) {Remote : Type 0} (crypto : Crypto)
    (t : Transport Remote) (now : ℤ) where
  abbrev pub State : Type 0
  State = crypto.Reader × Remote

  -- `stprov local`, of what package flag parses the arguments to.
  abbrev pub local_main :
      (List Text → Text × Options) → List Text → State → Option (Result (List Text) × State)
  local_main parsed args s =
      some (Local.main net read_file quoted crypto t now (parsed args).0 (parsed args).1 s)

  abbrev pub command :
      (List Text → Text × Options)
      → (List Text → State → Option (Result (List Text) × State))
      → Text
      → List Text
      → State
      → Option (Exit × State)
  command parsed remote_main =
      main quoted is_unknown_authority version usage (local_main parsed) remote_main

  abbrev pub hint_of : Error → List Text
  hint_of e =
      if is_unknown_authority (Error.wrap (codes " run") e)
      then codes "The one-time password may be incorrect." ∷ []
      else []

  -- The command has printed the lines that `Main` returned, and exits with 0.
  abbrev pub Succeeds : Result (List Text) × State → Option (Exit × State) → Type 0
  Succeeds result outcome =
      (lines : List Text) × (result.0 ≡ ok lines)
      × (outcome ≡ some (record { status = 0; stdout = lines; messages = [] }, result.1))

  -- `Main` returned an error, which is reported with the command in front and perhaps with
  -- the hint, and the command exits with 1.
  abbrev pub Fails : Result (List Text) × State → Option (Exit × State) → Type 0
  Fails result outcome =
      (e : Error) × (result.0 ≡ err e)
      × (outcome
          ≡ some (
            record {
              status = 1;
              stdout = [];
              messages = (codes "stprov local run: " ++ error_text e) ∷ hint_of e;
            },
            result.1,
          ))

  -- `stprov local run` exits with 0, prints on stdout what `Main` of the command returns, and reports no
  -- error; or `Main` returned an error, and it exits with 1, prints nothing on stdout, and reports the
  -- error with the command in front, and the hint at the one-time password if the error is that of an
  -- unknown authority. The log lines of the command are apart from that.
  pub local-exits :
      (parsed : List Text → Text × Options)
      (remote_main : List Text → State → Option (Result (List Text) × State)) (args : List Text)
      (o : Options) (s : State)
      → parsed args ≡ (codes "run", o)
      → let result = Run.main net read_file crypto t now o s in
        let outcome = command parsed remote_main (codes "local") args s in
        Succeeds result outcome ⊎ Fails result outcome
  unfolding main report error_text Local.main Local.dispatch
  local-exits parsed remote_main args o s is_parsed =
      elim (Result-cases (Run.main net read_file crypto t now o s).0) [
        | inl (lines, q) ↦ inl (lines, q, rw (is_parsed, q) refl)
        | inr (e, q) ↦ inr (e, q, rw (is_parsed, q) refl)
      ]
