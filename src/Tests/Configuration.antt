-- ===== src/Tests/Configuration.antt =====
-- Configuration tables, and the GUIDs of both packages.
use uki_stub.Common.{ℕ, suc, ◌≡◌, refl, List, [], ◌∷◌, arith, ok, replicate, All}
use uki_stub.Firmware.{Firmware}
use uki_stub.Guid
use uki_stub.Guid.{bytes, registry_format, codes}
use uki_stub.Services.Boot
use uki_stub.Services.Files
use uki_stub.Services.Tables.{ConfigurationTable}
use uki_stub.Services.System.{SystemTable, configuration_tables, system_table_of}
use uki_stub.Services.Configuration.{IsTable, encode_tables, configuration_tables-encode_tables}
use uki_stub.Uefi.{efi_guid}
use uki_stub.Uefi.Guids.{acpi_20_table_guid, smbios3_table_guid, efi_file_info_id}
use uki_stub.Uefi.Tables.{loaded_image_guid, graphics_output_guid}
use uki_stub.Uefi.Enumerate.{simple_file_system_guid}

abbrev tables : List ConfigurationTable
tables =
    record { guid = acpi_20_table_guid; vendor_table = 0x7fe000 }
    ∷ record { guid = smbios3_table_guid; vendor_table = 0x7ff000 }
    ∷ []

-- Firmware that has these tables in its memory.
abbrev listing : Firmware ℕ
listing = record {
  call = λ q w. (record { status = 0; refs = []; bufs = [] }, suc w);
  region = λ addr size count w. ok (encode_tables tables);
  load = λ addr size w. replicate size 0;
  store = λ addr bs w. w;
}

-- A system table that announces two tables at 4096.
abbrev announced : SystemTable
announced = record (system_table_of []) { number_of_table_entries = 2; configuration_table = 4096 }

tables-IsTable : All IsTable tables
unfolding efi_guid
tables-IsTable = omega arith

configuration_tables-encode_tables_example :
    (configuration_tables listing announced 0 ≡ (ok tables, 0))
    × All (λ (t : ConfigurationTable). bytes (registry_format t.guid) ≡ t.guid) tables
configuration_tables-encode_tables_example =
    configuration_tables-encode_tables listing announced 0 tables refl (cc) (omega arith)
      (omega arith) tables-IsTable refl

-- The texts of ueficore and the structs of the package uefi give the same bytes.
same_guids :
    (bytes Boot.loaded_image_protocol_guid ≡ loaded_image_guid)
    × (bytes Boot.simple_file_system_protocol_guid ≡ simple_file_system_guid)
    × (bytes Boot.graphics_output_protocol_guid ≡ graphics_output_guid)
    × (bytes Files.efi_file_info_id ≡ efi_file_info_id)
unfolding efi_guid bytes Guid.find_submatch Guid.take_dashed Guid.take_group Guid.hex_value
    Guid.take_last Guid.assemble Guid.decode_string Guid.arrange
same_guids = (refl, refl, refl, refl)
