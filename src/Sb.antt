-- ===== src/Sb.antt =====
-- internal/sb/sb.go: Secure Boot variables. `efivarfs` and `uuid` are the parameter `efi`; a
-- function that only reads takes the store's state, one that writes is an action on it.
pub mod Provision
pub mod Reboot
use stprov.Prelude.{
  ℕ, ◌+◌, ◌*◌, ◌/◌, ◌%◌, Bool, true, false, ◌&&◌, List, [], ◌∷◌, ◌++◌, Text, Bytes, codes, length,
  get_or, replicate, decimal, is_empty, not, ◌==◌, if◌then◌else◌, Error, msg, wrap, Result, ok, err,
}
use stprov.Prelude.Bits.{bit_and, bit_or}
use stprov.Prelude.Errors
use stprov.Prelude.Exec.{Exec, pure, raise, lift, reads, context, ◌>>=◌, ◌>>◌}
use stprov.Efi.{Efi, Descriptor}

abbrev pub efi_global_variable_guid : Text
efi_global_variable_guid = codes "8be4df61-93ca-11d2-aa0d-00e098032b8c"

abbrev pub efi_global_variable_setup_mode : Text
efi_global_variable_setup_mode = codes "SetupMode"

abbrev pub efi_global_variable_pk : Text
efi_global_variable_pk = codes "PK"

abbrev pub efi_global_variable_kek : Text
efi_global_variable_kek = codes "KEK"

abbrev pub efi_global_variable_os_indications : Text
efi_global_variable_os_indications = codes "OsIndications"

abbrev pub efi_os_indications_boot_to_firmware_ui : ℕ
efi_os_indications_boot_to_firmware_ui = 1

abbrev pub efi_image_security_database_guid : Text
efi_image_security_database_guid = codes "d719b2cb-3d3a-4596-a3bc-dad00e67656f"

abbrev pub efi_image_security_database_db : Text
efi_image_security_database_db = codes "db"

abbrev pub efi_image_security_database_dbx : Text
efi_image_security_database_dbx = codes "dbx"

-- binary.LittleEndian.Uint64 and PutUint64, over any number of bytes
unfoldable pub uint_le : Bytes → ℕ
uint_le [] = 0
uint_le (b ∷ bs) = b + 256 * uint_le bs

unfoldable pub put_uint_le : ℕ → ℕ → Bytes
put_uint_le ℕ.zero x = []
put_uint_le (ℕ.suc k) x = (x % 256) ∷ put_uint_le k (x / 256)

-- The checks of `IsSetupMode` on the value that was read. The error of a bad length wraps a nil
-- error, which `fmt` writes as below.
unfoldable pub setup_mode_of : Bytes → Result Bool
setup_mode_of [] = err (msg (codes "unexpected length: %!w(<nil>)"))
setup_mode_of (b ∷ []) =
    if not (b == 0) && not (b == 1)
    then err (msg (codes "unexpected value: " ++ decimal b))
    else ok (b == 1)
setup_mode_of (b ∷ c ∷ bs) = err (msg (codes "unexpected length: %!w(<nil>)"))

-- The value that the OS indications are read as: eight zero bytes if the read failed.
abbrev pub or_zeros : Result Bytes → Bytes
or_zeros (ok b) = b
or_zeros (err e) = replicate 8 0

module _ (efi : Efi) where
  open efi use {
    Guid, State, parse_guid, new, read_variable, write_variable, attribute_non_volatile,
    attribute_bootservice_access, attribute_runtime_access,
    attribute_time_based_authenticated_write_access,
  }

  unfoldable pub efi_read : Text → Text → State → Result Bytes
  efi_read name guid s = Errors.◌>>=◌ (Errors.context (codes "parse guid") (parse_guid guid)) λ id.
      Errors.◌>>=◌ (Errors.context (codes "new efivarfs") (new s)) λ _.
        Errors.◌>>=◌
          (Errors.context (codes "read efivarfs")
            (read_variable (record { name = name; guid = id }) s))
          λ r. ok r.1

  unfoldable pub efi_write : Text → Text → Bytes → Exec State (Unit {0})
  efi_write name guid bytes = do
    context (codes "new efivarfs") (reads new)
    id ← context (codes "parse guid " ++ guid) (lift (parse_guid guid))
    let attrs =
        bit_or (bit_or attribute_non_volatile attribute_bootservice_access) attribute_runtime_access
    write_variable (record { name = name; guid = id }) attrs bytes

  unfoldable pub efi_authenticated_write : Text → Text → Bytes → Exec State (Unit {0})
  efi_authenticated_write name guid auth_data = do
    context (codes "new efivarfs") (reads new)
    id ← context (codes "parse guid " ++ guid) (lift (parse_guid guid))
    let attrs =
        bit_or
          (bit_or (bit_or attribute_non_volatile attribute_bootservice_access)
            attribute_runtime_access)
          attribute_time_based_authenticated_write_access
    write_variable (record { name = name; guid = id }) attrs auth_data

  unfoldable pub is_setup_mode : State → Result Bool
  is_setup_mode s =
      Errors.◌>>=◌
        (Errors.context efi_global_variable_setup_mode
          (efi_read efi_global_variable_setup_mode efi_global_variable_guid s))
        setup_mode_of

  unfoldable pub provision : Bytes → Bytes → Bytes → Bytes → Exec State (Unit {0})
  provision pk kek db dbx = do
    context efi_global_variable_pk
        (efi_authenticated_write efi_global_variable_pk efi_global_variable_guid pk)
    context efi_global_variable_kek
        (efi_authenticated_write efi_global_variable_kek efi_global_variable_guid kek)
    context efi_image_security_database_db
        (efi_authenticated_write efi_image_security_database_db efi_image_security_database_guid db)
    if is_empty dbx
        then pure tt
        else context efi_image_security_database_dbx (
            efi_authenticated_write efi_image_security_database_dbx efi_image_security_database_guid
              dbx)

  -- `RequestRebootIntoUEFIMenu` once the OS indications are read
  unfoldable pub request_reboot_with : Bytes → Exec State (Unit {0})
  request_reboot_with b =
      let os_indications = uint_le b in
      if not (length b == 8)
      then raise (
          msg (
            efi_global_variable_os_indications
            ++ codes ": unexpected data length "
            ++ decimal (length b)))
      else if not (bit_and os_indications efi_os_indications_boot_to_firmware_ui == 0)
      then pure tt
      else context efi_global_variable_os_indications (
          efi_write efi_global_variable_os_indications efi_global_variable_guid
            (put_uint_le 8 (bit_or os_indications efi_os_indications_boot_to_firmware_ui)))

  unfoldable pub request_reboot_into_uefi_menu : Exec State (Unit {0})
  request_reboot_into_uefi_menu s =
      request_reboot_with
        (or_zeros (efi_read efi_global_variable_os_indications efi_global_variable_guid s)) s
