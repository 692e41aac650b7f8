-- ===== src/Uefi/Structs.antt =====
-- The structs of pkg/uefi as Go lays them out in memory.
use uki_stub.Common.{ℕ, ◌+◌, ◌-◌, ◌%◌, List, [], ◌∷◌, ◌++◌, take, drop, get_or, replicate}
use uki_stub.MemoryMap.{MemoryDescriptor}
use uki_stub.Wire.{le_value}
use uki_stub.Services.Boot.{LoadedImage}
use uki_stub.Services.System.{SystemTable}
use uki_stub.Services.Files.{EfiTime, InfoStruct}

-- A struct is the list of the widths of its fields. Each field is aligned to its width, as Go does
-- for numbers and pointers; a struct in a struct is the list of its own fields.
abbrev pub gap : ℕ → ℕ → ℕ
gap off w = (w - off % w) % w

-- The values of the fields behind an offset, each at the place that Go gives it.
unfoldable pub go_reads : ℕ → List ℕ → List ℕ → List ℕ
unfolding le_value
go_reads off [] buf = []
go_reads off (w ∷ ws) buf =
    let at = off + gap off w in le_value (take w (drop at buf)) ∷ go_reads (at + w) ws buf

-- The places of the fields.
unfoldable pub go_offsets : ℕ → List ℕ → List ℕ
go_offsets off [] = []
go_offsets off (w ∷ ws) = let at = off + gap off w in at ∷ go_offsets (at + w) ws

-- EFI_TABLE_HEADER
abbrev pub efi_table_header : List ℕ
efi_table_header = 8 ∷ 4 ∷ 4 ∷ 4 ∷ 4 ∷ []

-- EFI_SYSTEM_TABLE
abbrev pub efi_system_table : List ℕ
efi_system_table = efi_table_header ++ 8 ∷ 4 ∷ 8 ∷ 8 ∷ 8 ∷ 8 ∷ 8 ∷ 8 ∷ 8 ∷ 8 ∷ 8 ∷ 8 ∷ []

-- EFI_BOOT_SERVICES and EFI_RUNTIME_SERVICES: a header and the addresses of functions.
abbrev pub efi_boot_services : List ℕ
efi_boot_services = efi_table_header ++ replicate 44 8

abbrev pub efi_runtime_services : List ℕ
efi_runtime_services = efi_table_header ++ replicate 14 8

-- EFI_LOADED_IMAGE_PROTOCOL
abbrev pub efi_loaded_image : List ℕ
efi_loaded_image = 4 ∷ 8 ∷ 8 ∷ 8 ∷ 8 ∷ 8 ∷ 4 ∷ 8 ∷ 8 ∷ 8 ∷ 8 ∷ 8 ∷ 8 ∷ []

-- EFI_GRAPHICS_OUTPUT_PROTOCOL_MODE
abbrev pub efi_graphics_mode : List ℕ
efi_graphics_mode = 4 ∷ 4 ∷ 8 ∷ 8 ∷ 8 ∷ 8 ∷ []

-- EFI_GRAPHICS_OUTPUT_MODE_INFORMATION, with the four masks of EFI_PIXEL_BITMASK
abbrev pub efi_mode_information : List ℕ
efi_mode_information = 4 ∷ 4 ∷ 4 ∷ 4 ∷ (4 ∷ 4 ∷ 4 ∷ 4 ∷ []) ++ 4 ∷ []

-- EFI_FILE_PROTOCOL
abbrev pub efi_file_protocol : List ℕ
efi_file_protocol = 8 ∷ 8 ∷ 8 ∷ 8 ∷ 8 ∷ 8 ∷ 8 ∷ 8 ∷ 8 ∷ 8 ∷ 8 ∷ []

-- EFI_MEMORY_DESCRIPTOR
abbrev pub efi_memory_descriptor : List ℕ
efi_memory_descriptor = 4 ∷ 8 ∷ 8 ∷ 8 ∷ 8 ∷ []

-- EFI_SIMPLE_TEXT_OUTPUT_PROTOCOL: nine functions and the pointer Mode.
abbrev pub efi_simple_text_output : List ℕ
efi_simple_text_output = 8 ∷ 8 ∷ 8 ∷ 8 ∷ 8 ∷ 8 ∷ 8 ∷ 8 ∷ 8 ∷ 8 ∷ []

-- EFI_SERIAL_IO_PROTOCOL: a revision, six functions, and two pointers.
abbrev pub efi_serial_io : List ℕ
efi_serial_io = 4 ∷ 8 ∷ 8 ∷ 8 ∷ 8 ∷ 8 ∷ 8 ∷ 8 ∷ 8 ∷ []

-- EFI_SIMPLE_NETWORK_PROTOCOL: a revision, thirteen functions, an event and the pointer Mode.
abbrev pub efi_simple_network : List ℕ
efi_simple_network = replicate 16 8

-- EFI_DHCP4_PROTOCOL: nine functions.
abbrev pub efi_dhcp4 : List ℕ
efi_dhcp4 = replicate 9 8

-- EFI_GRAPHICS_OUTPUT_PROTOCOL: three functions and the pointer Mode.
abbrev pub efi_graphics_output : List ℕ
efi_graphics_output = 8 ∷ 8 ∷ 8 ∷ 8 ∷ []

-- EFI_TIME
abbrev pub efi_time : List ℕ
efi_time = 2 ∷ 1 ∷ 1 ∷ 1 ∷ 1 ∷ 1 ∷ 1 ∷ 4 ∷ 2 ∷ 1 ∷ 1 ∷ []

-- EFI_FILE_INFO
abbrev pub efi_file_info : List ℕ
efi_file_info = 8 ∷ 8 ∷ 8 ∷ efi_time ++ (efi_time ++ (efi_time ++ 8 ∷ []))

-- The structs of ueficore, from the values in the order of the fields of the package uefi.
abbrev pub system_table_from : List ℕ → SystemTable
system_table_from vs = record {
  header = record {
    signature = get_or vs 0 0;
    revision = get_or vs 1 0;
    header_size = get_or vs 2 0;
    crc32 = get_or vs 3 0;
    reserved = get_or vs 4 0;
  };
  firmware_vendor = get_or vs 5 0;
  firmware_revision = get_or vs 6 0;
  console_in_handle = get_or vs 7 0;
  con_in = get_or vs 8 0;
  console_out_handle = get_or vs 9 0;
  con_out = get_or vs 10 0;
  standard_error_handle = get_or vs 11 0;
  std_err = get_or vs 12 0;
  runtime_services = get_or vs 13 0;
  boot_services = get_or vs 14 0;
  number_of_table_entries = get_or vs 15 0;
  configuration_table = get_or vs 16 0;
}

-- The sixth field is Reserved.
abbrev pub loaded_image_from : List ℕ → LoadedImage
loaded_image_from vs = record {
  revision = get_or vs 0 0;
  parent_handle = get_or vs 1 0;
  system_table = get_or vs 2 0;
  device_handle = get_or vs 3 0;
  file_path = get_or vs 4 0;
  load_options_size = get_or vs 6 0;
  load_options = get_or vs 7 0;
  image_base = get_or vs 8 0;
  image_size = get_or vs 9 0;
  image_code_type = get_or vs 10 0;
  image_data_type = get_or vs 11 0;
  unload = get_or vs 12 0;
}

abbrev pub date_of : EfiTime → List ℕ
date_of t = t.year ∷ t.month ∷ t.day ∷ t.hour ∷ t.minute ∷ t.second ∷ []

-- Sizes, attribute, and year to second of the three times.
abbrev pub known_of : InfoStruct → List ℕ
known_of info =
    info.size
    ∷ info.file_size
    ∷ info.physical_size
    ∷ info.attribute
    ∷ (date_of info.create_time
        ++ (date_of info.last_access_time ++ date_of info.modification_time))

-- The same of EFI_FILE_INFO.
abbrev pub known_from : List ℕ → List ℕ
known_from vs =
    get_or vs 0 0
    ∷ get_or vs 1 0
    ∷ get_or vs 2 0
    ∷ get_or vs 36 0
    ∷ (take 6 (drop 3 vs) ++ (take 6 (drop 14 vs) ++ take 6 (drop 25 vs)))

abbrev pub descriptor_from : List ℕ → MemoryDescriptor
descriptor_from vs = record {
  type = get_or vs 0 0;
  physical_start = get_or vs 1 0;
  virtual_start = get_or vs 2 0;
  number_of_pages = get_or vs 3 0;
  attribute = get_or vs 4 0;
}
