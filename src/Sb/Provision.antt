-- ===== src/Sb/Provision.antt =====
-- The order and the extent of the writes of `Provision` (internal/sb/sb.go).
use stprov.Prelude.{
  ℕ, List, [], ◌∷◌, ◌++◌, Text, Bytes, length, take, is_empty, if◌then◌else◌, codes, Result, ok,
  ◌≡◌, arith,
}
use stprov.Prelude.Bits.{bit_or}
use stprov.Efi.{Efi}
use stprov.Sb.{
  efi_global_variable_pk, efi_global_variable_kek, efi_image_security_database_db,
  efi_image_security_database_dbx, efi_authenticated_write, provision,
}

-- One call of WriteVariable: the variable's name and GUID, the attributes and the value. A GUID that
-- is planned is what its text parses to.
abbrev pub WriteCall : Efi → Type 0
WriteCall efi = Text × Result efi.Guid × ℕ × Bytes

-- The same store, which also keeps the calls of WriteVariable in order.
abbrev pub logged : Efi → Efi
logged efi = record {
  Guid = efi.Guid;
  State = efi.State × List (WriteCall efi);
  parse_guid = efi.parse_guid;
  new = λ s. efi.new s.0;
  read_variable = λ d s. efi.read_variable d s.0;
  write_variable = λ d a b s. (
    (efi.write_variable d a b s.0).0,
    ((efi.write_variable d a b s.0).1, s.1 ++ (d.name, ok d.guid, a, b) ∷ []),
  );
  attribute_non_volatile = efi.attribute_non_volatile;
  attribute_bootservice_access = efi.attribute_bootservice_access;
  attribute_runtime_access = efi.attribute_runtime_access;
  attribute_time_based_authenticated_write_access =
      efi.attribute_time_based_authenticated_write_access;
}

module _ (efi : Efi) where
  abbrev pub authenticated_attributes : ℕ
  authenticated_attributes =
      bit_or
        (bit_or (bit_or efi.attribute_non_volatile efi.attribute_bootservice_access)
          efi.attribute_runtime_access)
        efi.attribute_time_based_authenticated_write_access

  abbrev pub global_guid : Result efi.Guid
  global_guid = efi.parse_guid (codes "8be4df61-93ca-11d2-aa0d-00e098032b8c")

  abbrev pub database_guid : Result efi.Guid
  database_guid = efi.parse_guid (codes "d719b2cb-3d3a-4596-a3bc-dad00e67656f")

  -- The writes that a complete provisioning makes.
  abbrev pub plan : Bytes → Bytes → Bytes → Bytes → List (WriteCall efi)
  plan pk kek db dbx =
      (efi_global_variable_pk, global_guid, authenticated_attributes, pk)
      ∷ (efi_global_variable_kek, global_guid, authenticated_attributes, kek)
      ∷ (efi_image_security_database_db, database_guid, authenticated_attributes, db)
      ∷ (if is_empty dbx
          then []
          else (efi_image_security_database_dbx, database_guid, authenticated_attributes, dbx) ∷ [])

  -- The calls that `Provision` makes from a state, in order.
  abbrev pub calls : Bytes → Bytes → Bytes → Bytes → efi.State → List (WriteCall efi)
  calls pk kek db dbx s = (provision (logged efi) pk kek db dbx (s, [])).1.1

  -- The calls of WriteVariable are the first so many of PK, KEK, db and, if it is not empty, dbx,
  -- each an authenticated write, and keeping them changes neither the result nor the store.
  pub provision-prefix :
      (pk kek db dbx : Bytes) (s : efi.State)
      → (take (length (calls pk kek db dbx s)) (plan pk kek db dbx) ≡ calls pk kek db dbx s)
        × ((provision (logged efi) pk kek db dbx (s, [])).0 ≡ (provision efi pk kek db dbx s).0)
        × ((provision (logged efi) pk kek db dbx (s, [])).1.0 ≡ (provision efi pk kek db dbx s).1)
  unfolding provision efi_authenticated_write
  provision-prefix pk kek db [] s = (ground arith, ground arith, ground arith)
  provision-prefix pk kek db (x ∷ dbx) s = (ground arith, ground arith, ground arith)

  -- If `Provision` succeeds, the calls of WriteVariable are PK and KEK of the global GUID, db and, if it
  -- is not empty, dbx of the GUID of the image security database, in that order, each an authenticated
  -- write of the value given.
  pub provision_complete :
      (pk kek db dbx : Bytes) (s : efi.State)
      → (provision efi pk kek db dbx s).0 ≡ ok tt
      → calls pk kek db dbx s ≡ plan pk kek db dbx
  unfolding provision efi_authenticated_write
  provision_complete pk kek db [] s h = ground arith
  provision_complete pk kek db (x ∷ dbx) s h = ground arith
