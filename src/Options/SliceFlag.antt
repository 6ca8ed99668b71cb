-- ===== src/Options/SliceFlag.antt =====
-- `SliceFlag` (internal/options/options.go): a repeated option whose default yields to the first
-- value that is set.
use stprov.Prelude.{
  Bool, true, false, List, [], ◌∷◌, ◌++◌, Text, split, is_empty, if◌then◌else◌, ◌≡◌, append_assoc,
  append-nil,
}

pub record SliceFlag : Type 0 where
  pub values : List Text
  pub is_set : Bool

-- var f SliceFlag
abbrev pub zero_value : SliceFlag
zero_value = record { values = []; is_set = false }

-- SliceFlag.Set
unfoldable pub set : SliceFlag → Text → SliceFlag
set f value =
    let kept = if f.is_set then f.values else [] in
    record { values = kept ++ split value b','; is_set = true }

-- What `AddStringS` does to the option's variable.
unfoldable pub add_string_s : SliceFlag → Text → SliceFlag
add_string_s f value =
    if is_empty value then f else record { values = split value b','; is_set = false }

-- The parse of a command line calls `Set` for each occurrence of the option, in order.
unfoldable pub set_all : SliceFlag → List Text → SliceFlag
unfolding set
set_all f [] = f
set_all f (v ∷ vs) = set_all (set f v) vs

-- The parts of every value, in order.
abbrev pub parts : List Text → List Text
parts [] = []
parts (v ∷ vs) = split v b',' ++ parts vs

set_all-append :
    (kept : List Text) (vs : List Text)
    → (set_all (record { values = kept; is_set = true }) vs).values ≡ kept ++ parts vs
unfolding set_all
set_all-append kept [] = rw append-nil
set_all-append kept (v ∷ vs) = rw (set_all-append (kept ++ split v b',') vs) (append_assoc kept _ _)

-- Once a list option whose variable was not set before is given, its values are the parts of all the
-- given ones, in order, whatever the default and the variable were.
pub set_all-add_string_s :
    (f : SliceFlag) (default : Text) (v : Text) (vs : List Text)
    → f.is_set ≡ false
    → (set_all (add_string_s f default) (v ∷ vs)).values ≡ parts (v ∷ vs)
unfolding set_all add_string_s
set_all-add_string_s f [] v vs h = rw h (set_all-append (split v b',') vs)
set_all-add_string_s f (c ∷ default) v vs h = set_all-append (split v b',') vs
