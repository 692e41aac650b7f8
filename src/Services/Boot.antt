-- ===== src/Services/Boot.antt =====
-- The boot services: protocol.go, image.go, exit.go, pages.go, wdog.go, the firmware calls of
-- mem.go and graphics.go.
use uki_stub.Common.{
  ℕ, suc, ◌+◌, ◌*◌, ◌/◌, ◌%◌, ◌^◌, ◌||◌, Option, none, some, List, [], ◌∷◌, ltb, ◌==◌,
  if◌then◌else◌, length, get_or, Failure, invalid_revision, Outcome, ok, err, panic,
}
use uki_stub.Status.{parse_status}
use uki_stub.Firmware.{
  Firmware, M, value, reference, buffer, Reply, Entry, at, call_service, call_status, decode,
  attempt, check, return, crash, lift, left_in, zeros, ◌>>=◌,
}
use uki_stub.Guid.{codes, bytes}
use uki_stub.MemoryMap.{MemoryDescriptor, page_size, max_entries, decode_map}

pub record BootServices : Type 0 where
  pub base : ℕ
  pub image_handle : ℕ

-- `s.base + offset`, in uint64.
abbrev pub service : BootServices → ℕ → Entry
service s offset = at ((s.base + offset) % 2 ^ 64)

abbrev pub loaded_image_protocol_guid : List ℕ
loaded_image_protocol_guid = codes "5b1b31a1-9562-11d2-8e3f-00a0c969723b"

abbrev pub loaded_image_device_path_protocol_guid : List ℕ
loaded_image_device_path_protocol_guid = codes "09576e91-6d3f-11d2-8e39-00a0c969723b"

abbrev pub simple_file_system_protocol_guid : List ℕ
simple_file_system_protocol_guid = codes "964e5b22-6459-11d2-8e39-00a0c969723b"

abbrev pub graphics_output_protocol_guid : List ℕ
graphics_output_protocol_guid = codes "9042a9de-23dc-4a38-96fb-7aded080516a"

pub record LoadedImage : Type 0 where
  pub revision : ℕ
  pub parent_handle : ℕ
  pub system_table : ℕ
  pub device_handle : ℕ
  pub file_path : ℕ
  pub load_options_size : ℕ
  pub load_options : ℕ
  pub image_base : ℕ
  pub image_size : ℕ
  pub image_code_type : ℕ
  pub image_data_type : ℕ
  pub unload : ℕ

-- The struct with its three blank fields.
abbrev pub loaded_image_layout : List ℕ
loaded_image_layout = 4 ∷ 4 ∷ 8 ∷ 8 ∷ 8 ∷ 8 ∷ 8 ∷ 4 ∷ 4 ∷ 8 ∷ 8 ∷ 8 ∷ 8 ∷ 8 ∷ 8 ∷ []

abbrev pub loaded_image_of : List ℕ → LoadedImage
loaded_image_of vs = record {
  revision = get_or vs 0 0;
  parent_handle = get_or vs 2 0;
  system_table = get_or vs 3 0;
  device_handle = get_or vs 4 0;
  file_path = get_or vs 5 0;
  load_options_size = get_or vs 7 0;
  load_options = get_or vs 9 0;
  image_base = get_or vs 10 0;
  image_size = get_or vs 11 0;
  image_code_type = get_or vs 12 0;
  image_data_type = get_or vs 13 0;
  unload = get_or vs 14 0;
}

abbrev pub loaded_image_protocol_revision : ℕ
loaded_image_protocol_revision = 0x1000

-- The results `(image, addr, err)` of LoadImageHandle; its callers read them one by one.
pub record ImageHandle : Type 0 where
  pub image : Option LoadedImage
  pub addr : ℕ
  pub error : Option Failure

pub record MemoryMap : Type 0 where
  pub map_size : ℕ
  pub descriptors : List MemoryDescriptor
  pub map_key : ℕ
  pub descriptor_size : ℕ
  pub descriptor_version : ℕ

-- `int(n)` of a uint64 as the bound of a loop that counts up from 0: a negative bound is met.
abbrev pub loop_bound : ℕ → ℕ
loop_bound n = if ltb n (2 ^ 63) then n else 0

pub record GraphicsOutput : Type 0 where
  pub base : ℕ
  pub mode : ℕ

abbrev pub map_buffer_size : ℕ
map_buffer_size = 48 * max_entries

-- What GetMemoryMap makes of the firmware's answer. An error of a descriptor is handed back beside
-- the map. `none` of decode_map, the end of its fuel, does not occur: see MemoryMap.Decode.
unfoldable pub read_descriptors : MemoryMap → List ℕ → Outcome (MemoryMap × Option Failure)
read_descriptors m buf = elim (decode_map (suc max_entries) buf (loop_bound m.map_size) 0 []) [
  | none ↦ panic
  | some (ok (ds, e)) ↦ ok (record m { descriptors = ds }, e)
  | some (err e) ↦ err e
  | some panic ↦ panic
]

unfoldable pub map_of_reply : Reply → Outcome (MemoryMap × Option Failure)
map_of_reply r =
    let m : MemoryMap = record {
      map_size = left_in r 0 map_buffer_size;
      descriptors = [];
      map_key = left_in r 1 0;
      descriptor_size = left_in r 2 48;
      descriptor_version = left_in r 3 0;
    } in
    elim (parse_status r.status) [
      | some e ↦ ok (m, some e)
      | none ↦ read_descriptors m (get_or r.bufs 0 (zeros map_buffer_size))
    ]

module _ {W : Type 0} (fw : Firmware W) (s : BootServices) where
  -- The address is handed back beside the error.
  unfoldable pub handle_protocol : ℕ → List ℕ → M W (ℕ × Option Failure)
  unfolding call_service
  handle_protocol handle guid = do
    r ← call_service fw (service s 0x98) (value handle ∷ buffer (bytes guid) ∷ reference 0 ∷ [])
    return (left_in r 0 0, parse_status r.status)

  unfoldable pub locate_protocol : List ℕ → M W (ℕ × Option Failure)
  unfolding call_service
  locate_protocol guid = do
    r ← call_service fw (service s 0x140) (buffer (bytes guid) ∷ value 0 ∷ reference 0 ∷ [])
    return (left_in r 0 0, parse_status r.status)

  -- An error of decode leaves the fields of the image unset.
  unfoldable pub load_image_handle : ℕ → M W ImageHandle
  load_image_handle image_handle = do
    (addr, e) ← handle_protocol image_handle loaded_image_protocol_guid
    elim e [
      | some f ↦ return (record { image = none; addr = addr; error = some f })
      | none ↦ do
        t ← attempt (decode fw loaded_image_layout addr)
        elim t [
          | ok vs ↦
              if get_or vs 0 0 == loaded_image_protocol_revision
              then return (record { image = some (loaded_image_of vs); addr = addr; error = none })
              else return (record { image = none; addr = 0; error = some invalid_revision })
          | err f ↦
              return (record { image = some (loaded_image_of []); addr = addr; error = some f })
          | panic ↦ crash
        ]
    ]

  -- The call of LoadImage and LoadImageMem, on a device path and the bytes of the image. `&buf[0]`
  -- panics on an empty slice.
  unfoldable pub load_image_call : ℕ → List ℕ → List ℕ → M W (ℕ × Option Failure)
  unfolding call_service
  load_image_call boot device_path buf =
      if length device_path == 0 || length buf == 0 then crash else do
        r ← call_service fw (service s 0xc8) (
            value boot
            ∷ value s.image_handle
            ∷ buffer device_path
            ∷ buffer buf
            ∷ value (length buf)
            ∷ reference 0
            ∷ [])
        return (left_in r 0 0, parse_status r.status)

  unfoldable pub start_image : ℕ → M W (Option Failure)
  unfolding call_status
  start_image image_handle =
      call_status fw (service s 0xd0) (value image_handle ∷ value 0 ∷ value 0 ∷ [])

  unfoldable pub exit : ℕ → M W (Option Failure)
  unfolding call_status
  exit code =
      call_status fw (service s 0xd8) (value s.image_handle ∷ value code ∷ value 0 ∷ value 0 ∷ [])

  -- The physical address goes by reference and is not handed back.
  unfoldable pub allocate_pages : ℕ → ℕ → ℕ → ℕ → M W (Option Failure)
  unfolding call_status
  allocate_pages allocate_type memory_type size physical_address = call_status fw (service s 0x28) (
      value allocate_type
      ∷ value memory_type
      ∷ value (size / page_size)
      ∷ reference physical_address
      ∷ [])

  unfoldable pub free_pages : ℕ → ℕ → M W (Option Failure)
  unfolding call_status
  free_pages physical_address size =
      call_status fw (service s 0x30) (value physical_address ∷ value (size / page_size) ∷ [])

  unfoldable pub set_watchdog_timer : ℕ → M W (Option Failure)
  unfolding call_status
  set_watchdog_timer sec =
      call_status fw (service s 0x100) (value sec ∷ value 0xba3e5e7a1 ∷ value 0 ∷ value 0 ∷ [])

  unfoldable pub get_memory_map : M W (MemoryMap × Option Failure)
  unfolding call_service
  get_memory_map = do
    r ← call_service fw (service s 0x38) (
        reference map_buffer_size
        ∷ buffer (zeros map_buffer_size)
        ∷ reference 0
        ∷ reference 48
        ∷ reference 0
        ∷ [])
    lift (map_of_reply r)

  -- The map is handed back beside an error.
  unfoldable pub exit_boot_services : M W (MemoryMap × Option Failure)
  unfolding call_status
  exit_boot_services = do
    (m, e) ← get_memory_map
    elim e [
      | some f ↦ return (m, some f)
      | none ↦ do
        status ← call_status fw (service s 0xe8) (value s.image_handle ∷ value m.map_key ∷ [])
        return (m, status)
    ]

  -- The struct with the entries of the protocol.
  unfoldable pub get_graphics_output : M W GraphicsOutput
  get_graphics_output = do
    (base, e) ← locate_protocol graphics_output_protocol_guid
    base ← check base e
    vs ← decode fw (8 ∷ 8 ∷ 8 ∷ 8 ∷ []) base
    return (record { base = base; mode = get_or vs 3 0 })
