-- ===== src/Efi.antt =====
-- What the code calls of the packages github.com/u-root/u-root/pkg/efivarfs and
-- github.com/google/uuid, which are not part of the repository: a parameter of every module that
-- reads or writes EFI variables. `State` is what the firmware keeps.
use stprov.Prelude.{ℕ, Text, Bytes, ◌≡◌, ◌≢◌, Result, ok}
use stprov.Prelude.Bits.{bit_and, bit_or}
use stprov.Prelude.Exec.{Exec}

-- efivarfs.VariableDescriptor
pub record Descriptor (Guid : Type 0) : Type 0 where
  pub name : Text
  pub guid : Guid

pub record Efi : Type 1 where
  pub Guid : Type 0
  pub State : Type 0
  -- uuid.Parse
  pub parse_guid : Text → Result Guid
  -- efivarfs.New
  pub new : State → Result (Unit {0})
  -- efivarfs.ReadVariable
  pub read_variable : Descriptor Guid → State → Result (ℕ × Bytes)
  -- efivarfs.WriteVariable
  pub write_variable : Descriptor Guid → ℕ → Bytes → Exec State (Unit {0})
  pub attribute_non_volatile : ℕ
  pub attribute_bootservice_access : ℕ
  pub attribute_runtime_access : ℕ
  pub attribute_time_based_authenticated_write_access : ℕ

-- What a variable store does: a value that was written without authentication is read back with
-- its attributes, and a write leaves the other variables and the availability of the store alone.
-- The attributes of a plain write do not hold the bit of the authenticated ones.
module _ (efi : Efi) where
  open efi use {
    Guid, State, new, read_variable, write_variable, attribute_non_volatile,
    attribute_bootservice_access, attribute_runtime_access,
    attribute_time_based_authenticated_write_access as authenticated,
  }

  pub record IsStore : Type 0 where
    pub read-write :
        (d : Descriptor Guid) (a : ℕ) (b : Bytes) (s : State)
        → bit_and a authenticated ≡ 0
        → (write_variable d a b s).0 ≡ ok tt
        → read_variable d (write_variable d a b s).1 ≡ ok (a, b)
    pub read-write_other :
        (d d' : Descriptor Guid) (a : ℕ) (b : Bytes) (s : State)
        → d.name ≢ d'.name
        → read_variable d' (write_variable d a b s).1 ≡ read_variable d' s
    pub new-write :
        (d : Descriptor Guid) (a : ℕ) (b : Bytes) (s : State)
        → new (write_variable d a b s).1 ≡ new s
    pub plain :
        bit_and
          (bit_or
            (bit_or attribute_non_volatile attribute_bootservice_access)
            attribute_runtime_access)
          authenticated
        ≡ 0
    pub plain_rotated :
        bit_and
          (bit_or
            (bit_or attribute_bootservice_access attribute_runtime_access)
            attribute_non_volatile)
          authenticated
        ≡ 0
