-- ===== src/Services/System.antt =====
-- The system table and the runtime services: uefi.go, config.go, reset.go and the modes of
-- graphics.go.
use uki_stub.Common.{
  ltb, suc, ℕ, ◌+◌, ◌*◌, ◌/◌, ◌%◌, ◌^◌, true, ◌||◌, Option, List, [], ◌∷◌, ◌==◌, if◌then◌else◌,
  get_or, length, none, Failure, invalid_system_table, invalid_configuration,
}
use uki_stub.Firmware.{
  Firmware, M, value, reference, buffer, at, call_status, decode, observe, return, fail, lift,
  crash, ◌>>=◌, zeros,
}
use uki_stub.Console.{Console}
use uki_stub.Services.Tables.{ConfigurationTable, read_tables}
use uki_stub.Services.Boot.{BootServices, GraphicsOutput}

-- "TSYS IBI"
abbrev pub signature : ℕ
signature = 0x5453595320494249

pub record TableHeader : Type 0 where
  pub signature : ℕ
  pub revision : ℕ
  pub header_size : ℕ
  pub crc32 : ℕ
  pub reserved : ℕ

pub record SystemTable : Type 0 where
  pub header : TableHeader
  pub firmware_vendor : ℕ
  pub firmware_revision : ℕ
  pub console_in_handle : ℕ
  pub con_in : ℕ
  pub console_out_handle : ℕ
  pub con_out : ℕ
  pub standard_error_handle : ℕ
  pub std_err : ℕ
  pub runtime_services : ℕ
  pub boot_services : ℕ
  pub number_of_table_entries : ℕ
  pub configuration_table : ℕ

-- The five fields of the header, and one blank field.
abbrev pub system_table_layout : List ℕ
system_table_layout = 8 ∷ 4 ∷ 4 ∷ 4 ∷ 4 ∷ 8 ∷ 4 ∷ 4 ∷ 8 ∷ 8 ∷ 8 ∷ 8 ∷ 8 ∷ 8 ∷ 8 ∷ 8 ∷ 8 ∷ 8 ∷ []

abbrev pub system_table_of : List ℕ → SystemTable
system_table_of vs = record {
  header = record {
    signature = get_or vs 0 0;
    revision = get_or vs 1 0;
    header_size = get_or vs 2 0;
    crc32 = get_or vs 3 0;
    reserved = get_or vs 4 0;
  };
  firmware_vendor = get_or vs 5 0;
  firmware_revision = get_or vs 6 0;
  console_in_handle = get_or vs 8 0;
  con_in = get_or vs 9 0;
  console_out_handle = get_or vs 10 0;
  con_out = get_or vs 11 0;
  standard_error_handle = get_or vs 12 0;
  std_err = get_or vs 13 0;
  runtime_services = get_or vs 14 0;
  boot_services = get_or vs 15 0;
  number_of_table_entries = get_or vs 16 0;
  configuration_table = get_or vs 17 0;
}

-- SystemTable.Revision: the two numbers that it prints around a dot.
unfoldable pub revision : SystemTable → ℕ × ℕ
revision d = (d.header.revision / 2 ^ 16, d.header.revision % 2 ^ 16)

-- EFI_SPECIFICATION_REVISION_MAJORMINOR of pkg/uefi/uefi_spec.go, on two uint16.
unfoldable pub major_minor : ℕ → ℕ → ℕ
major_minor major minor = major * 2 ^ 16 + minor

pub record Services : Type 0 where
  pub system_table : SystemTable
  pub console : Console
  pub boot : BootServices
  pub runtime_base : ℕ
  pub image_handle : ℕ
  pub system_table_addr : ℕ

-- EFI_RESET_SYSTEM
abbrev pub efi_reset_cold : ℕ
efi_reset_cold = 0

abbrev pub efi_reset_shutdown : ℕ
efi_reset_shutdown = 2

pub record ProtocolMode : Type 0 where
  pub max_mode : ℕ
  pub current : ℕ
  pub info : ℕ
  pub size_of_info : ℕ
  pub frame_buffer_base : ℕ
  pub frame_buffer_size : ℕ

abbrev pub protocol_mode_layout : List ℕ
protocol_mode_layout = 4 ∷ 4 ∷ 8 ∷ 8 ∷ 8 ∷ 8 ∷ []

abbrev pub protocol_mode_of : List ℕ → ProtocolMode
protocol_mode_of vs = record {
  max_mode = get_or vs 0 0;
  current = get_or vs 1 0;
  info = get_or vs 2 0;
  size_of_info = get_or vs 3 0;
  frame_buffer_base = get_or vs 4 0;
  frame_buffer_size = get_or vs 5 0;
}

pub record ModeInformation : Type 0 where
  pub version : ℕ
  pub horizontal_resolution : ℕ
  pub vertical_resolution : ℕ
  pub pixel_format : ℕ
  pub red_mask : ℕ
  pub green_mask : ℕ
  pub blue_mask : ℕ
  pub reserved_mask : ℕ
  pub pixels_per_scan_line : ℕ

abbrev pub mode_information_layout : List ℕ
mode_information_layout = 4 ∷ 4 ∷ 4 ∷ 4 ∷ 4 ∷ 4 ∷ 4 ∷ 4 ∷ 4 ∷ []

abbrev pub mode_information_of : List ℕ → ModeInformation
mode_information_of vs = record {
  version = get_or vs 0 0;
  horizontal_resolution = get_or vs 1 0;
  vertical_resolution = get_or vs 2 0;
  pixel_format = get_or vs 3 0;
  red_mask = get_or vs 4 0;
  green_mask = get_or vs 5 0;
  blue_mask = get_or vs 6 0;
  reserved_mask = get_or vs 7 0;
  pixels_per_scan_line = get_or vs 8 0;
}

module _ {W : Type 0} (fw : Firmware W) where
  -- Services.Init
  unfoldable pub init : ℕ → ℕ → M W Services
  unfolding decode
  init image_handle system_table = do
    vs ← decode fw system_table_layout system_table
    let st = system_table_of vs
    if st.header.signature == signature
        then return (record {
          system_table = st;
          console = record {
            force_line = true;
            replace_tabs = 8;
            input = st.con_in;
            output = st.con_out;
          };
          boot = record { base = st.boot_services; image_handle = image_handle };
          runtime_base = st.runtime_services;
          image_handle = image_handle;
          system_table_addr = system_table;
        })
        else fail invalid_system_table

  -- `tableSize` is an int: from 2 ^ 63 on it is below 0, and the loop has no round. Each round goes 24
  -- bytes on, so that there is at most one for each entry, and one to end.
  unfoldable pub configuration_tables : SystemTable → M W (List ConfigurationTable)
  configuration_tables d =
      if d.number_of_table_entries == 0 || d.configuration_table == 0
      then fail invalid_configuration
      else do
        let table_size = 24 * d.number_of_table_entries % 2 ^ 64
        buf ← observe (fw.region d.configuration_table table_size table_size)
        if ltb table_size (2 ^ 63)
            then lift (read_tables (suc d.number_of_table_entries) buf table_size 0 [])
            else return []

  unfoldable pub reset_system : ℕ → ℕ → M W (Option Failure)
  unfolding call_status
  reset_system base reset_type =
      call_status fw (at ((base + 0x68) % 2 ^ 64))
        (value reset_type ∷ value 0 ∷ value 0 ∷ value 0 ∷ [])

  -- RuntimeServices.GetVariable: the four arguments in the order of the source; the data and the
  -- attributes are dropped.
  unfoldable pub get_variable : ℕ → List ℕ → List ℕ → M W (Option Failure)
  unfolding call_status
  get_variable base name guid =
      call_status fw (at ((base + 0x48) % 2 ^ 64))
        (buffer name ∷ buffer guid ∷ buffer (zeros 16) ∷ reference 0 ∷ [])

  unfoldable pub get_mode : GraphicsOutput → M W ProtocolMode
  unfolding decode
  get_mode gop = do vs ← decode fw protocol_mode_layout gop.mode; return (protocol_mode_of vs)

  -- ProtocolMode.GetInfo
  unfoldable pub mode_information : ProtocolMode → M W ModeInformation
  unfolding decode
  mode_information d = do
    vs ← decode fw mode_information_layout d.info
    return (mode_information_of vs)

  -- Blt. `&buf[0]` panics on an empty slice.
  unfoldable pub blt :
      GraphicsOutput → List ℕ → ℕ → ℕ → ℕ → ℕ → ℕ → ℕ → ℕ → ℕ → M W (Option Failure)
  unfolding call_status
  blt gop buf op src_x src_y dst_x dst_y width height delta =
      if gop.base == 0
      then return none
      else if length buf == 0
      then crash
      else call_status fw (at ((gop.base + 0x10) % 2 ^ 64)) (
          value gop.base
          ∷ buffer buf
          ∷ value op
          ∷ value src_x
          ∷ value src_y
          ∷ value dst_x
          ∷ value dst_y
          ∷ value width
          ∷ value height
          ∷ value delta
          ∷ [])
