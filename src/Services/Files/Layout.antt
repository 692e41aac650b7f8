-- ===== src/Services/Files/Layout.antt =====
-- The structs of pkg/ueficore/file.go and fs.go, and what FileInfo tells.
use uki_stub.Common.{
  ℕ, ◌+◌, ◌-◌, ◌^◌, Bool, ◌||◌, Option, List, [], ◌∷◌, ◌++◌, ltb, ◌==◌, if◌then◌else◌, get_or, take,
  drop,
}
use Prim.Native.Nat.{bit_and}
use uki_stub.Guid.{codes}
use uki_stub.Services.Boot.{LoadedImage}

abbrev pub efi_file_info_id : List ℕ
efi_file_info_id = codes "09576e92-6d3f-11d2-8e39-00a0c969723b"

abbrev pub efi_file_mode_read : ℕ
efi_file_mode_read = 1

abbrev pub efi_file_directory : ℕ
efi_file_directory = 0x10

-- The table of functions behind a file handle.
pub record FileProtocol : Type 0 where
  pub revision : ℕ
  pub open_fn : ℕ
  pub close_fn : ℕ
  pub delete_fn : ℕ
  pub read_fn : ℕ
  pub write_fn : ℕ
  pub get_position_fn : ℕ
  pub set_position_fn : ℕ
  pub get_info_fn : ℕ
  pub set_info_fn : ℕ
  pub flush_fn : ℕ

abbrev pub file_protocol_layout : List ℕ
file_protocol_layout = 8 ∷ 8 ∷ 8 ∷ 8 ∷ 8 ∷ 8 ∷ 8 ∷ 8 ∷ 8 ∷ 8 ∷ 8 ∷ []

abbrev pub file_protocol_of : List ℕ → FileProtocol
file_protocol_of vs = record {
  revision = get_or vs 0 0;
  open_fn = get_or vs 1 0;
  close_fn = get_or vs 2 0;
  delete_fn = get_or vs 3 0;
  read_fn = get_or vs 4 0;
  write_fn = get_or vs 5 0;
  get_position_fn = get_or vs 6 0;
  set_position_fn = get_or vs 7 0;
  get_info_fn = get_or vs 8 0;
  set_info_fn = get_or vs 9 0;
  flush_fn = get_or vs 10 0;
}

-- EFI_FILE_PROTOCOL_REVISION or EFI_FILE_PROTOCOL_REVISION2
abbrev pub is_file_revision : ℕ → Bool
is_file_revision revision = revision == 0x10000 || revision == 0x20000

-- EFI_TIME as file.go declares it: a byte for the nanoseconds, and a blank uint32 at the end.
abbrev pub efi_time_layout : List ℕ
efi_time_layout = 2 ∷ 1 ∷ 1 ∷ 1 ∷ 1 ∷ 1 ∷ 1 ∷ 1 ∷ 2 ∷ 1 ∷ 4 ∷ []

pub record EfiTime : Type 0 where
  pub year : ℕ
  pub month : ℕ
  pub day : ℕ
  pub hour : ℕ
  pub minute : ℕ
  pub second : ℕ
  pub nanosecond : ℕ
  pub time_zone : ℕ
  pub daylight : ℕ

abbrev pub efi_time_of : List ℕ → EfiTime
efi_time_of vs = record {
  year = get_or vs 0 0;
  month = get_or vs 1 0;
  day = get_or vs 2 0;
  hour = get_or vs 3 0;
  minute = get_or vs 4 0;
  second = get_or vs 5 0;
  nanosecond = get_or vs 7 0;
  time_zone = get_or vs 8 0;
  daylight = get_or vs 9 0;
}

abbrev pub file_info_layout : List ℕ
file_info_layout = 8 ∷ 8 ∷ 8 ∷ (efi_time_layout ++ (efi_time_layout ++ (efi_time_layout ++ 8 ∷ [])))

pub record InfoStruct : Type 0 where
  pub size : ℕ
  pub file_size : ℕ
  pub physical_size : ℕ
  pub create_time : EfiTime
  pub last_access_time : EfiTime
  pub modification_time : EfiTime
  pub attribute : ℕ

abbrev pub info_of : List ℕ → InfoStruct
info_of vs = record {
  size = get_or vs 0 0;
  file_size = get_or vs 1 0;
  physical_size = get_or vs 2 0;
  create_time = efi_time_of (take 11 (drop 3 vs));
  last_access_time = efi_time_of (take 11 (drop 14 vs));
  modification_time = efi_time_of (take 11 (drop 25 vs));
  attribute = get_or vs 36 0;
}

-- A file handle; its methods take it for open if `addr` is not 0.
pub record File : Type 0 where
  pub file : FileProtocol
  pub addr : ℕ
  pub name : List ℕ

pub record FileInfo : Type 0 where
  pub info : InfoStruct
  pub addr : ℕ
  pub name : List ℕ

-- FileInfo.Size, as the bits of the int64.
unfoldable pub file_info_size : FileInfo → ℕ
file_info_size fi = fi.info.file_size

unfoldable pub is_dir : FileInfo → Bool
is_dir fi = ltb 0 (bit_and fi.info.attribute efi_file_directory)

pub data FileMode : Type 0 where
  mode_dir regular : FileMode

unfoldable pub mode : FileInfo → FileMode
unfolding is_dir
mode fi = if is_dir fi then mode_dir else regular

-- `int(m.TimeZone)`, as the bits of the result: the field is an int16.
abbrev pub time_zone_bits : EfiTime → ℕ
time_zone_bits m = if ltb m.time_zone (2 ^ 15) then m.time_zone else m.time_zone + (2 ^ 64 - 2 ^ 16)

-- FileInfo.ModTime, where FixedZone and Date are those of the package time.
module _ {Zone Time : Type 0} (fixed_zone : ℕ → Zone)
    (date : ℕ → ℕ → ℕ → ℕ → ℕ → ℕ → ℕ → Zone → Time) where
  unfoldable pub mod_time : FileInfo → Time
  mod_time fi =
      let m = fi.info.modification_time in
      date m.year m.month m.day m.hour m.minute m.second m.nanosecond
        (fixed_zone (time_zone_bits m))

pub record SimpleFileSystem : Type 0 where
  pub revision : ℕ
  pub open_volume_fn : ℕ

abbrev pub simple_file_system_of : List ℕ → SimpleFileSystem
simple_file_system_of vs = record { revision = get_or vs 0 0; open_volume_fn = get_or vs 1 0 }

pub record FileSystem : Type 0 where
  pub image : Option LoadedImage
  pub device : ℕ
  pub addr : ℕ
  pub fs : SimpleFileSystem
  pub volume : Option File
