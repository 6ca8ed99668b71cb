-- ===== src/Cmd.antt =====
-- cmd/stprov/main.go: the command `stprov`. The two subcommands are parameters; what package flag
-- has parsed is the name of the subcommand and its arguments.
pub mod Exits
use stprov.Prelude.{
  ℕ, Bool, ◌||◌, ◌&&◌, Option, none, some, List, [], ◌∷◌, ◌++◌, Text, codes, text_eq, is_empty,
  if◌then◌else◌, Error, msg, Result, ok, err, ◌≡◌, refl,
}

-- Error(): a message that wraps an error (`%w`) has that error behind a colon.
unfoldable pub error_text : Error → Text
error_text (msg t) = t
error_text (Error.wrap t e) = t ++ codes ": " ++ error_text e

-- The exit status, what is printed on stdout, and what `main` itself prints on stderr: the log lines
-- that the commands write there are left out.
pub record Exit : Type 0 where
  pub status : ℕ
  pub stdout : List Text
  pub messages : List Text

module _ (quoted : Text → Text) (is_unknown_authority : Error → Bool) (version usage : Text) where
  abbrev error_line : Text → Error → Text
  error_line name e =
      if is_empty name
      then codes "stprov" ++ name ++ error_text e
      else codes "stprov " ++ name ++ error_text e

  -- The hint for a certificate that the one-time password does not explain.
  abbrev hint : Text → Error → List Text
  hint name e =
      if text_eq name (codes "local") && is_unknown_authority e
      then codes "The one-time password may be incorrect." ∷ []
      else []

  unfoldable pub report : Text → Result (List Text) → Exit
  unfolding error_text
  report name (ok lines) = record { status = 0; stdout = lines; messages = [] }
  report name (err e) = record {
    status = 1;
    stdout = [];
    messages = error_line name e ∷ hint name e;
  }

  module _ {S : Type 0}
      (local_main remote_main : List Text → S → Option (Result (List Text) × S)) where
    abbrev reported : Text → Option (Result (List Text) × S) → Option (Exit × S)
    reported name none = none
    reported name (some (r, s)) = some (report name r, s)

    -- none if the subcommand does not return; the usage is a message on stderr
    unfoldable pub main : Text → List Text → S → Option (Exit × S)
    unfolding report
    main name args s =
        if text_eq name (codes "help") || is_empty name
        then some (record { status = 0; stdout = []; messages = usage ∷ [] }, s)
        else if text_eq name (codes "local")
        then reported name (local_main args s)
        else if text_eq name (codes "remote")
        then reported name (remote_main args s)
        else if text_eq name (codes "version")
        then some (record { status = 0; stdout = version ∷ []; messages = [] }, s)
        else some (
          report name
              (err (msg (codes ": invalid command " ++ quoted name ++ codes ", try \"help\""))),
          s,
        )

error_of_run : error_text (Error.wrap (codes " run") (msg (codes "port"))) ≡ codes " run: port"
unfolding error_text
error_of_run = refl
