-- ===== src/Options/Flags.antt =====
-- The flag sets of internal/options/options.go. Parsing, which is package flag's, is not modelled: a
-- flag set is the flags that are defined on it, in order, with their defaults.
use stprov.Prelude.{ℕ, Bool, List, [], ◌∷◌, ◌++◌, Text, text_eq, false, ◌||◌}
use stprov.Options.SliceFlag.{SliceFlag, add_string_s}

pub data Default : Type 0 where
  bool_default : Bool → Default
  text_default : Text → Default
  int_default : ℕ → Default
  slice_default : SliceFlag → Default

pub record Flag : Type 0 where
  pub name : Text
  pub default : Default

-- flag.FlagSet
pub record FlagSet : Type 0 where
  pub name : Text
  pub flags : List Flag

-- A variable is defined under its short name and under its long one.
abbrev pub both : FlagSet → Text → Text → Default → FlagSet
both fs short long d = record fs {
  flags =
      fs.flags ++ record { name = short; default = d } ∷ record { name = long; default = d } ∷ [];
}

unfoldable pub add_bool : FlagSet → Text → Text → Bool → FlagSet
add_bool fs short long value = both fs short long (bool_default value)

unfoldable pub add_string : FlagSet → Text → Text → Text → FlagSet
add_string fs short long value = both fs short long (text_default value)

-- The variable is one that nothing has set.
unfoldable pub add_slice : FlagSet → Text → Text → Text → FlagSet
unfolding add_string_s
add_slice fs short long value =
    both fs short long (slice_default (add_string_s (record { values = []; is_set = false }) value))

unfoldable pub add_int : FlagSet → Text → Text → ℕ → FlagSet
add_int fs short long value = both fs short long (int_default value)

-- fs.StringVar
unfoldable pub string_var : FlagSet → Text → Text → FlagSet
string_var fs name value = record fs {
  flags = fs.flags ++ record { name = name; default = text_default value } ∷ [];
}

abbrev command : List Text → Text
command [] = []
command (name ∷ args) = name

abbrev behind : List Text → List Text
behind [] = []
behind (name ∷ args) = args

-- `New`, up to the parsing: the flag set and the arguments that are parsed.
unfoldable pub new : List Text → (FlagSet → FlagSet) → FlagSet × List Text
new args set = (set (record { name = command args; flags = [] }), behind args)

-- Package flag panics when a flag is defined again.
unfoldable pub defines : List Flag → Text → Bool
defines [] name = false
defines (f ∷ fs) name = text_eq f.name name || defines fs name

unfoldable pub redefines : List Flag → Bool
unfolding defines
redefines [] = false
redefines (f ∷ fs) = defines fs f.name || redefines fs
