-- ===== src/Local/Main.antt =====
-- subcmd/local/local.go: the command line of `stprov local` and its commands. What package flag has
-- parsed is a parameter.
use stprov.Prelude.{
  false, ◌||◌, List, [], ◌∷◌, ◌++◌, Text, codes, text_eq, is_empty, if◌then◌else◌, msg, Result,
}
use stprov.Prelude.Int.{ℤ}
use stprov.Prelude.Errors
use stprov.Prelude.Exec.{Exec, pure, raise}
use stprov.Net.{Net}
use stprov.Crypto.{Crypto}
use stprov.Api.Client.{Transport}
use stprov.Options.Flags.{FlagSet, add_bool, add_string, add_int, string_var}
use stprov.Local.Run
use stprov.Local.Run.{Options, FileRead}

abbrev run_options : FlagSet → FlagSet
run_options fs =
    let fs1 = add_int fs (codes "p") (codes "port") 2009 in
    let fs2 = add_string fs1 (codes "i") (codes "ip") [] in
    let fs3 = add_string fs2 (codes "o") (codes "otp") [] in
    let fs4 = add_bool fs3 (codes "n") (codes "no-uefi-menu-reboot") false in
    let fs5 = string_var fs4 (codes "pk") [] in
    let fs6 = string_var fs5 (codes "kek") [] in
    let fs7 = string_var fs6 (codes "db") [] in string_var fs7 (codes "dbx") []

unfoldable pub set_options : FlagSet → FlagSet
set_options fs = if text_eq fs.name (codes "run") then run_options fs else fs

-- The name of the command before an error; a name that is empty has no space in front.
abbrev pub failed : {A : Type 0} → Text → Result A → Result A
failed [] r = Errors.context [] r
failed (c ∷ command) r = Errors.context (codes " " ++ c ∷ command) r

module _ (net : Net) (read_file : Text → FileRead) (quoted : Text → Text) where
  module _ {Remote : Type 0} (crypto : Crypto) (t : Transport Remote) (now : ℤ) where
    unfoldable pub dispatch : Text → Options → Exec (crypto.Reader × Remote) (List Text)
    dispatch command o =
        if text_eq command (codes "help") || is_empty command
        then pure []
        else if text_eq command (codes "run")
        then Run.main net read_file crypto t now o
        else raise (msg (codes "invalid command " ++ quoted command ++ codes ", try \"help\""))

    -- `Main`, once the command line is parsed: what is printed on stdout. The usage of `help`, on
    -- stderr, is not shown.
    unfoldable pub main : Text → Options → Exec (crypto.Reader × Remote) (List Text)
    unfolding dispatch
    main command o s = (failed command (dispatch command o s).0, (dispatch command o s).1)
