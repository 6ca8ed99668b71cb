-- ===== src/St/Persist.antt =====
-- What internal/st/st.go writes, it reads back.
use stprov.Prelude.{ℕ, Text, Bytes, ok, Result-cases, inl, inr, ◌≡◌, ◌≢◌, refl, arith}
use stprov.Prelude.Bits.{bit_or}
use stprov.Efi.{Efi, IsStore, Descriptor}
use stprov.St.{
  Host, write_efi, read_efi, write_host_name, read_host_name, write_host_config, host_config,
  host_config_efi_variable_name,
}

module _ (efi : Efi) (store : IsStore efi) where
  abbrev attributes : ℕ
  attributes =
      bit_or (bit_or efi.attribute_bootservice_access efi.attribute_runtime_access)
        efi.attribute_non_volatile

  read_efi-write_efi :
      (b : Bytes) (id : efi.Guid) (name : Text) (s : efi.State)
      → (write_efi efi b id name s).0 ≡ ok tt
      → read_efi efi id name (write_efi efi b id name s).1 ≡ ok b
  unfolding read_efi write_efi
  read_efi-write_efi b id name s h = elim (Result-cases (efi.new s)) [
    | inr (e, p) ↦ ground arith
    | inl (u, p) ↦
        let d : Descriptor efi.Guid = record { name = name; guid = id } in
        ground (
          arith,
          store.new-write d attributes b s,
          store.read-write d attributes b s store.plain_rotated,
        )
  ]

  -- A write to one variable leaves what is read of the others.
  read_efi-write_efi_other :
      (b : Bytes) (id id' : efi.Guid) (name name' : Text) (s : efi.State)
      → name ≢ name'
      → read_efi efi id' name' (write_efi efi b id name s).1 ≡ read_efi efi id' name' s
  unfolding read_efi write_efi
  read_efi-write_efi_other b id id' name name' s ne = elim (Result-cases (efi.new s)) [
    | inr (e, p) ↦ rw (p, p) refl
    | inl (u, p) ↦
        let d : Descriptor efi.Guid = record { name = name; guid = id } in
        let d' : Descriptor efi.Guid = record { name = name'; guid = id' } in
        ground
          (arith, store.new-write d attributes b s, store.read-write_other d d' attributes b s ne)
  ]

  -- Over a variable store, a host name that was persisted is read back, and stays when the host
  -- configuration is persisted behind it, under another name; that is read back too.
  pub host_name-host_config :
      (host : Host) (cfg : host.Config) (host_name name : Text) (id : efi.Guid) (s : efi.State)
      {var : Text × efi.Guid} {b : Bytes}
      → host_config_efi_variable_name efi host ≡ ok var
      → var.0 ≢ name
      → host.marshal_config cfg ≡ ok b
      → host.unmarshal_config b ≡ ok cfg
      → (write_host_name efi host_name id name s).0 ≡ ok tt
      → (write_host_config efi host cfg (write_host_name efi host_name id name s).1).0 ≡ ok tt
      → let s' = (write_host_config efi host cfg (write_host_name efi host_name id name s).1).1 in
        (read_host_name efi id name s' ≡ ok host_name) × (host_config efi host s' ≡ ok cfg)
  unfolding write_host_name read_host_name write_host_config host_config
  host_name-host_config host cfg host_name name id s {var} {b} v ne m u h k =
      let s₁ = (write_efi efi host_name id name s).1 in
      ground (
        arith,
        read_efi-write_efi host_name id name s h,
        read_efi-write_efi b var.1 var.0 s₁,
        read_efi-write_efi_other b var.1 id var.0 name s₁ ne,
      )
