-- ===== src/St.antt =====
-- internal/st/st.go: the host configuration and the host name as EFI variables. The name of the
-- variable, host.HostConfigEFIVarName of the package stboot, is a parameter, and so are its
-- configuration type and the JSON of it.
pub mod Persist
use stprov.Prelude.{
  ℕ, Option, none, some, [], ◌∷◌, ◌++◌, Text, Bytes, codes, ◌==◌, if◌then◌else◌, Error, msg, Result,
  ok, err,
}
use stprov.Prelude.Bits.{bit_or}
use stprov.Prelude.Errors
use stprov.Prelude.Exec.{Exec, pure, lift, reads, context, ◌>>=◌, ◌>>◌}
use stprov.Efi.{Efi, Descriptor}

-- The package system-transparency.org/stboot/host
pub record Host : Type 1 where
  pub Config : Type 0
  pub marshal_config : Config → Result Bytes
  pub unmarshal_config : Bytes → Result Config
  pub host_config_efi_var_name : Text

abbrev before : ℕ → Option (Text × Text) → Option (Text × Text)
before c none = none
before c (some (a, b)) = some (c ∷ a, b)

-- strings.SplitN(s, sep, 2), if it has two parts
unfoldable pub split_two : Text → ℕ → Option (Text × Text)
split_two [] sep = none
split_two (c ∷ s) sep = if c == sep then some ([], s) else before c (split_two s sep)

module _ (efi : Efi) where
  unfoldable pub write_efi : Bytes → efi.Guid → Text → Exec efi.State (Unit {0})
  write_efi b var_uuid efi_name = do
    let attrs =
        bit_or (bit_or efi.attribute_bootservice_access efi.attribute_runtime_access)
          efi.attribute_non_volatile
    context (codes "marshal") (reads efi.new)
    efi.write_variable (record { name = efi_name; guid = var_uuid }) attrs b

  unfoldable pub read_efi : efi.Guid → Text → efi.State → Result Bytes
  read_efi var_uuid efi_name s = Errors.◌>>=◌ (Errors.context (codes "marshal") (efi.new s)) λ _.
      Errors.◌>>=◌ (efi.read_variable (record { name = efi_name; guid = var_uuid }) s) λ r. ok r.1

  -- HostName.WriteEFI; a host name is a text
  unfoldable pub write_host_name : Text → efi.Guid → Text → Exec efi.State (Unit {0})
  write_host_name = write_efi

  -- HostName.ReadEFI
  unfoldable pub read_host_name : efi.Guid → Text → efi.State → Result Text
  read_host_name var_uuid efi_name s = Errors.context (codes "read") (read_efi var_uuid efi_name s)

  module _ (host : Host) where
    abbrev invalid_name : Error
    invalid_name = msg (codes "invalid host config EFI var name: " ++ host.host_config_efi_var_name)

    abbrev named : Option (Text × Text) → Result (Text × efi.Guid)
    named none = err invalid_name
    named (some (name, guid)) =
        Errors.◌>>=◌ (Errors.instead invalid_name (efi.parse_guid guid)) λ id. ok (name, id)

    -- `HostConfigEFIVariableName`: what stands before the first dash, and the GUID behind it
    unfoldable pub host_config_efi_variable_name : Result (Text × efi.Guid)
    unfolding split_two
    host_config_efi_variable_name = named (split_two host.host_config_efi_var_name b'-')

    unfoldable pub write_host_config : host.Config → Exec efi.State (Unit {0})
    write_host_config cfg = do
      b ← context (codes "marshal") (lift (host.marshal_config cfg))
      (name, guid) ← lift (Errors.instead invalid_name host_config_efi_variable_name)
      write_efi b guid name

    unfoldable pub host_config : efi.State → Result host.Config
    host_config s =
        Errors.◌>>=◌ (Errors.instead invalid_name host_config_efi_variable_name) λ v.
          Errors.◌>>=◌ (Errors.context (codes "read") (read_efi v.1 v.0 s)) host.unmarshal_config
