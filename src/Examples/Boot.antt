-- ===== src/Examples/Boot.antt =====
-- Examples for internal/sb and internal/st.
use stprov.Prelude.{◌+◌, ◌*◌, ◌/◌, ◌≡◌, refl, [], ◌∷◌, Text, Bytes, codes, length, ok, arith}
use stprov.Sb.{
  uint_le, provision, request_reboot_into_uefi_menu, is_setup_mode, efi_read,
  efi_global_variable_setup_mode, efi_global_variable_guid,
}
use stprov.Sb.Provision.{calls, plan, provision_complete}
use stprov.Sb.Reboot.{os_indications, request_reboot-sets_bit}
use stprov.St.{Host, write_host_name}
use stprov.Examples.Firmware.{Nvram, firmware, firmware-IsStore}

abbrev pub setup : Nvram
setup =
    (record { name = efi_global_variable_setup_mode; guid = efi_global_variable_guid }, 6, 1 ∷ [])
    ∷ []

provision_complete_example :
    calls firmware (1 ∷ []) (2 ∷ []) (3 ∷ []) (4 ∷ []) setup
    ≡ plan firmware (1 ∷ []) (2 ∷ []) (3 ∷ []) (4 ∷ [])
unfolding provision stprov.Sb.efi_authenticated_write
provision_complete_example =
    provision_complete firmware (1 ∷ []) (2 ∷ []) (3 ∷ []) (4 ∷ []) setup refl

request_reboot-sets_bit_example :
    (length (os_indications firmware (request_reboot_into_uefi_menu firmware setup).1) ≡ 8)
    × (uint_le (os_indications firmware (request_reboot_into_uefi_menu firmware setup).1)
        ≡ uint_le (os_indications firmware setup) / 2 * 2 + 1)
unfolding request_reboot_into_uefi_menu efi_read stprov.Sb.request_reboot_with stprov.Sb.efi_write
    stprov.Sb.uint_le
request_reboot-sets_bit_example =
    request_reboot-sets_bit firmware firmware-IsStore setup (ground arith) refl

abbrev pub lab_host : Host
lab_host = record {
  Config = Bytes;
  marshal_config = ok;
  unmarshal_config = ok;
  host_config_efi_var_name = codes "STHostConfig-f401f2c1-b005-4be0-8cee-f2e5945bcbe7";
}

abbrev pub guid : Text
guid = codes "f401f2c1-b005-4be0-8cee-f2e5945bcbe7"

abbrev named : Nvram
named = (write_host_name firmware (codes "lab") guid (codes "STHostName") setup).1
