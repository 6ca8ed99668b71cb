-- ===== src/Examples/Firmware.antt =====
-- A store of EFI variables: the list of the writes, the last one first.
use stprov.Prelude.{
  ℕ, Bool, true, false, ◌&&◌, List, [], ◌∷◌, Text, Bytes, codes, text_eq, text_eq_refl,
  text_eq_sound, Bool-cases, if◌then◌else◌, msg, Result, ok, err, inl, inr, ◌≡◌, ◌≢◌, refl,
}
use stprov.Efi.{Efi, Descriptor, IsStore}

abbrev pub Nvram : Type 0
Nvram = List (Descriptor Text × ℕ × Bytes)

abbrev same_variable : Descriptor Text → Descriptor Text → Bool
same_variable d d' = text_eq d.name d'.name && text_eq d.guid d'.guid

abbrev find : Descriptor Text → Nvram → Result (ℕ × Bytes)
find d [] = err (msg (codes "variable not found"))
find d ((d', a, b) ∷ s) = if same_variable d' d then ok (a, b) else find d s

abbrev pub firmware : Efi
firmware = record {
  Guid = Text;
  State = Nvram;
  parse_guid = ok;
  new = λ s. ok tt;
  read_variable = find;
  write_variable = λ d a b s. (ok tt, (d, a, b) ∷ s);
  attribute_non_volatile = 1;
  attribute_bootservice_access = 2;
  attribute_runtime_access = 4;
  attribute_time_based_authenticated_write_access = 32;
}

same_variable_refl : (d : Descriptor Text) → same_variable d d ≡ true
same_variable_refl d = rw (text_eq_refl d.name, text_eq_refl d.guid) refl

same_variable_other : (d d' : Descriptor Text) → d.name ≢ d'.name → same_variable d d' ≡ false
same_variable_other d d' h = elim (Bool-cases (text_eq d.name d'.name)) [
  | inl t ↦ absurd (h (text_eq_sound d.name d'.name t))
  | inr f ↦ rw f refl
]

pub firmware-IsStore : IsStore firmware
firmware-IsStore = record {
  read-write = λ d a b s p h. rw (same_variable_refl d) refl;
  read-write_other = λ d d' a b s h. rw (same_variable_other d d' h) refl;
  new-write = λ d a b s. refl;
  plain = refl;
  plain_rotated = refl;
}
