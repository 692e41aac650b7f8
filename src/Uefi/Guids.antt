-- ===== src/Uefi/Guids.antt =====
-- The GUIDs of the configuration tables, pkg/uefi/uefi_spec.go, and of the information on files,
-- pkg/uefi/simple_file_system_protocol.go.
use uki_stub.Common.{List, [], ◌∷◌, ℕ}
use uki_stub.Uefi.{efi_guid}

abbrev pub mps_table_guid : List ℕ
mps_table_guid =
    efi_guid 0xeb9d2d2f 0x2d88 0x11d3 (0x9a ∷ 0x16 ∷ 0x00 ∷ 0x90 ∷ 0x27 ∷ 0x3f ∷ 0xc1 ∷ 0x4d ∷ [])

abbrev pub acpi_table_guid : List ℕ
acpi_table_guid =
    efi_guid 0xeb9d2d30 0x2d88 0x11d3 (0x9a ∷ 0x16 ∷ 0x00 ∷ 0x90 ∷ 0x27 ∷ 0x3f ∷ 0xc1 ∷ 0x4d ∷ [])

abbrev pub acpi_20_table_guid : List ℕ
acpi_20_table_guid =
    efi_guid 0x8868e871 0xe4f1 0x11d3 (0xbc ∷ 0x22 ∷ 0x00 ∷ 0x80 ∷ 0xc7 ∷ 0x3c ∷ 0x88 ∷ 0x81 ∷ [])

abbrev pub smbios_table_guid : List ℕ
smbios_table_guid =
    efi_guid 0xeb9d2d31 0x2d88 0x11d3 (0x9a ∷ 0x16 ∷ 0x00 ∷ 0x90 ∷ 0x27 ∷ 0x3f ∷ 0xc1 ∷ 0x4d ∷ [])

abbrev pub smbios3_table_guid : List ℕ
smbios3_table_guid =
    efi_guid 0xf2fd1544 0x9794 0x4a2c (0x99 ∷ 0x2e ∷ 0xe5 ∷ 0xbb ∷ 0xcf ∷ 0x20 ∷ 0xe3 ∷ 0x94 ∷ [])

abbrev pub sal_system_table_guid : List ℕ
sal_system_table_guid =
    efi_guid 0xeb9d2d32 0x2d88 0x11d3 (0x9a ∷ 0x16 ∷ 0x00 ∷ 0x90 ∷ 0x27 ∷ 0x3f ∷ 0xc1 ∷ 0x4d ∷ [])

abbrev pub efi_dtb_table_guid : List ℕ
efi_dtb_table_guid =
    efi_guid 0xb1b621d5 0xf19c 0x41a5 (0x83 ∷ 0x0b ∷ 0xd9 ∷ 0x15 ∷ 0x2c ∷ 0x69 ∷ 0xaa ∷ 0xe0 ∷ [])

abbrev pub efi_file_info_id : List ℕ
efi_file_info_id =
    efi_guid 0x09576e92 0x6d3f 0x11d2 (0x8e ∷ 0x39 ∷ 0x00 ∷ 0xa0 ∷ 0xc9 ∷ 0x69 ∷ 0x72 ∷ 0x3b ∷ [])

abbrev pub efi_file_system_info_id : List ℕ
efi_file_system_info_id =
    efi_guid 0x09576e93 0x6d3f 0x11d2 (0x8e ∷ 0x39 ∷ 0x00 ∷ 0xa0 ∷ 0xc9 ∷ 0x69 ∷ 0x72 ∷ 0x3b ∷ [])

abbrev pub efi_file_system_volume_label_id : List ℕ
efi_file_system_volume_label_id =
    efi_guid 0xdb47d7d3 0xfe81 0x11d3 (0x9a ∷ 0x35 ∷ 0x00 ∷ 0x90 ∷ 0x27 ∷ 0x3f ∷ 0xc1 ∷ 0x4d ∷ [])
