-- ===== src/Sb/Reboot.antt =====
-- `RequestRebootIntoUEFIMenu` and `IsSetupMode` (internal/sb/sb.go).
use stprov.Prelude.{
  ℕ, zero, suc, ◌+◌, ◌*◌, ◌/◌, ◌^◌, ◌<◌, Bool, [], ◌∷◌, Text, Bytes, length, All, if◌then◌else◌, ok,
  ◌≡◌, ◌↔◌, refl, arith, ap, ◌∙◌, Result-cases, inl, inr,
}
use stprov.Prelude.Bits.{bit_or, bit_or-one, bit_and-one}
use native.Mathlib.Nat.{pow-suc}
use stprov.Efi.{Efi, IsStore, Descriptor}
use stprov.Sb.{
  uint_le, put_uint_le, setup_mode_of, or_zeros, efi_read, efi_write, is_setup_mode,
  request_reboot_with, request_reboot_into_uefi_menu, efi_global_variable_os_indications,
  efi_global_variable_guid, efi_global_variable_setup_mode,
}

abbrev pub AreBytes : Bytes → Type 0
AreBytes = All (λ x. x < 256)

-- Reading what was written, for a value that fits the bytes.
pub uint_le-put_uint_le : (k x : ℕ) → x < 256 ^ k → uint_le (put_uint_le k x) ≡ x
unfolding uint_le put_uint_le
uint_le-put_uint_le zero x h = omega arith
uint_le-put_uint_le (suc k) x h =
    omega (arith, uint_le-put_uint_le k (x / 256) (omega (arith, pow-suc 256 k)))

pub length-put_uint_le : (k x : ℕ) → length (put_uint_le k x) ≡ k
unfolding put_uint_le
length-put_uint_le zero x = refl
length-put_uint_le (suc k) x = ap suc (length-put_uint_le k (x / 256))

pub uint_le-lt : (bs : Bytes) → AreBytes bs → uint_le bs < 256 ^ length bs
unfolding uint_le
uint_le-lt [] h = omega arith
uint_le-lt (b ∷ bs) (hb, hs) = omega (arith, uint_le-lt bs hs, pow-suc 256 (length bs))

-- The value of the variable, as `RequestRebootIntoUEFIMenu` reads it.
abbrev pub os_indications : (efi : Efi) → efi.State → Bytes
os_indications efi s =
    or_zeros (efi_read efi efi_global_variable_os_indications efi_global_variable_guid s)

-- Bit 0 set in the eight bytes of a value: the other bits stay.
uint_le-set_bit :
    (b : Bytes)
    → AreBytes b
    → length b ≡ 8
    → uint_le (put_uint_le 8 (bit_or (uint_le b) 1)) ≡ uint_le b / 2 * 2 + 1
uint_le-set_bit b h e =
    let fits : uint_le b < 256 ^ 8 = rw e at (uint_le-lt b h) in
    rw bit_or-one (uint_le-put_uint_le 8 (uint_le b / 2 * 2 + 1) (omega arith))

abbrev write_attributes : Efi → ℕ
write_attributes efi =
    bit_or (bit_or efi.attribute_non_volatile efi.attribute_bootservice_access)
      efi.attribute_runtime_access

module _ (efi : Efi) (store : IsStore efi) where
  pub efi_read-efi_write :
      (name guid : Text) (b : Bytes) (s : efi.State)
      → (efi_write efi name guid b s).0 ≡ ok tt
      → efi_read efi name guid (efi_write efi name guid b s).1 ≡ ok b
  unfolding efi_read efi_write
  efi_read-efi_write name guid b s h = elim (Result-cases (efi.new s)) [
    | inr (e, p) ↦ ground arith
    | inl (u, p) ↦ elim (Result-cases (efi.parse_guid guid)) [
      | inr (e, q) ↦ ground arith
      | inl (id, q) ↦
          let d : Descriptor efi.Guid = record { name = name; guid = id } in
          ground (
            arith,
            store.new-write d (write_attributes efi) b s,
            store.read-write d (write_attributes efi) b s store.plain,
          )
    ]
  ]

  -- Over a variable store, a request for the menu that succeeds, where the indications are bytes,
  -- leaves eight bytes with bit 0 set and the other bits as they were.
  pub request_reboot-sets_bit :
      (s : efi.State)
      → AreBytes (os_indications efi s)
      → (request_reboot_into_uefi_menu efi s).0 ≡ ok tt
      → let s' = (request_reboot_into_uefi_menu efi s).1 in
        (length (os_indications efi s') ≡ 8)
        × (uint_le (os_indications efi s') ≡ uint_le (os_indications efi s) / 2 * 2 + 1)
  unfolding request_reboot_into_uefi_menu request_reboot_with
  request_reboot-sets_bit s h r =
      let b = os_indications efi s in
      let v = put_uint_le 8 (bit_or (uint_le b) 1) in
      ground (
        arith,
        bit_and-one (uint_le b),
        uint_le-set_bit b h,
        length-put_uint_le 8 (bit_or (uint_le b) 1),
        efi_read-efi_write efi_global_variable_os_indications efi_global_variable_guid v s,
      )

  -- Over a variable store, where the indications are bytes, a second request for the menu right
  -- after one that succeeded succeeds and writes nothing.
  pub request_reboot_idem :
      (s : efi.State)
      → AreBytes (os_indications efi s)
      → (request_reboot_into_uefi_menu efi s).0 ≡ ok tt
      → request_reboot_into_uefi_menu efi (request_reboot_into_uefi_menu efi s).1
        ≡ (ok tt, (request_reboot_into_uefi_menu efi s).1)
  request_reboot_idem s h r =
      let s' = (request_reboot_into_uefi_menu efi s).1 in
      let (long, odd) = request_reboot-sets_bit s h r in
      unfold request_reboot_into_uefi_menu request_reboot_with in
      ground (arith, bit_and-one (uint_le (os_indications efi s')))

setup_mode_of_iff :
    (b : Bytes) (on : Bool) → (setup_mode_of b ≡ ok on) ↔ (b ≡ (if on then 1 else 0) ∷ [])
unfolding setup_mode_of
setup_mode_of_iff [] on = ((λ h. cc), (λ h. cc))
setup_mode_of_iff (x ∷ []) on = ((λ h. ground arith), (λ h. ground arith))
setup_mode_of_iff (x ∷ y ∷ b) on = ((λ h. cc), (λ h. cc))

-- Setup mode is reported, on or off, exactly when the variable holds the one byte 1 or 0.
pub is_setup_mode_iff :
    (efi : Efi) (s : efi.State) (on : Bool)
    → (is_setup_mode efi s ≡ ok on) ↔ (
        efi_read efi efi_global_variable_setup_mode efi_global_variable_guid s
        ≡ ok ((if on then 1 else 0) ∷ []))
unfolding is_setup_mode
is_setup_mode_iff efi s on =
    let read = efi_read efi efi_global_variable_setup_mode efi_global_variable_guid s in
    elim (Result-cases read) [
      | inr (e, p) ↦ ((λ h. ground arith), (λ h. ground arith))
      | inl (b, p) ↦ (
        (λ h. p ∙ ap ok ((setup_mode_of_iff b on).0 (ground arith))),
        (λ h. rw (h) ((setup_mode_of_iff _ on).1 refl)),
      )
    ]
