-- ===== src/Tests/Layouts.antt =====
-- Structs in memory.
use uki_stub.Common.{
  ℕ, suc, zero, ◌+◌, ◌*◌, ◌≡◌, refl, List, [], ◌∷◌, arith, get_or, take, drop, map, ok,
}
use uki_stub.MemoryMap.{descriptor_layout, descriptor_of}
use uki_stub.Wire.{fields, marshal, size_of}
use uki_stub.Firmware.{Firmware, encode, decode, ◌>>=◌}
use uki_stub.Firmware.Memory.{decode-encode}
use uki_stub.Services.Boot.{loaded_image_layout, loaded_image_of}
use uki_stub.Services.System.{
  system_table_layout, system_table_of, protocol_mode_layout, protocol_mode_of,
  mode_information_layout, mode_information_of,
}
use uki_stub.Services.Files.{
  file_protocol_layout, file_protocol_of, file_info_layout, info_of, FileInfo, EfiTime, mod_time,
}
use uki_stub.Uefi.Structs.{
  efi_memory_descriptor, descriptor_from, efi_simple_text_output, efi_serial_io, efi_simple_network,
  efi_dhcp4, efi_graphics_output, go_reads, go_offsets, efi_system_table, efi_loaded_image,
  efi_graphics_mode, efi_mode_information, efi_file_protocol, efi_file_info, efi_boot_services,
  efi_runtime_services, system_table_from, loaded_image_from, known_of, known_from,
}
use uki_stub.Uefi.Layout.{layouts_agree}

abbrev count_up : ℕ → ℕ → List ℕ
count_up zero from = []
count_up (suc n) from = from ∷ count_up n (suc from)

abbrev some_bytes : List ℕ
some_bytes = count_up 120 1

-- The vendor behind the header of 24 bytes, and the console handle behind a gap.
efi_system_table-some_bytes :
    take 3 (drop 5 (go_reads 0 efi_system_table some_bytes))
    ≡ 0x201f1e1d1c1b1a19 ∷ 0x24232221 ∷ 0x302f2e2d2c2b2a29 ∷ []
unfolding go_reads
efi_system_table-some_bytes = refl

-- The places that the methods read: the last function of each protocol.
offsets_of_protocols :
    map
      (λ (ws, i). get_or (go_offsets 0 ws) i 0)
      ((efi_simple_text_output, 8)
        ∷ (efi_serial_io, 6)
        ∷ (efi_simple_network, 4)
        ∷ (efi_dhcp4, 8)
        ∷ (efi_graphics_output, 3)
        ∷ (efi_file_protocol, 10)
        ∷ [])
    ≡ 0x40 ∷ 0x30 ∷ 0x20 ∷ 0x40 ∷ 24 ∷ 0x50 ∷ []
unfolding go_offsets
offsets_of_protocols = refl

layouts_agree_example :
    (system_table_of (fields system_table_layout some_bytes)
      ≡ system_table_from (go_reads 0 efi_system_table some_bytes))
    × (loaded_image_of (fields loaded_image_layout some_bytes)
        ≡ loaded_image_from (go_reads 0 efi_loaded_image some_bytes))
    × (protocol_mode_of (fields protocol_mode_layout some_bytes)
        ≡ protocol_mode_of (go_reads 0 efi_graphics_mode some_bytes))
    × (mode_information_of (fields mode_information_layout some_bytes)
        ≡ mode_information_of (go_reads 0 efi_mode_information some_bytes))
    × (file_protocol_of (fields file_protocol_layout some_bytes)
        ≡ file_protocol_of (go_reads 0 efi_file_protocol some_bytes))
    × (known_of (info_of (fields file_info_layout some_bytes))
        ≡ known_from (go_reads 0 efi_file_info some_bytes))
    × (descriptor_of (fields descriptor_layout some_bytes)
        ≡ descriptor_from (go_reads 0 efi_memory_descriptor some_bytes))
    × (get_or (drop 5 (go_offsets 0 efi_boot_services)) 43 0 ≡ 24 + 8 * 43)
    × (get_or (drop 5 (go_offsets 0 efi_runtime_services)) 10 0 ≡ 24 + 8 * 10)
layouts_agree_example = layouts_agree some_bytes 43 10 (omega arith) (omega arith)

-- A memory of a single place.
abbrev one_place : Firmware (List ℕ)
one_place = record {
  call = λ q bytes. (record { status = 0; refs = []; bufs = [] }, bytes);
  region = λ addr size count bytes. ok (take count bytes);
  load = λ addr size bytes. take size bytes;
  store = λ addr bs bytes. bs;
}

decode-encode_example :
    (encode one_place (1 ∷ 2 ∷ []) (7 ∷ 513 ∷ []) 4096
        >>= (λ _. decode one_place (1 ∷ 2 ∷ []) 4096))
      (5 ∷ 6 ∷ 7 ∷ 8 ∷ [])
    ≡ (ok (7 ∷ 513 ∷ []), 7 ∷ 1 ∷ 2 ∷ [])
unfolding marshal size_of
decode-encode_example =
    decode-encode one_place (1 ∷ 2 ∷ []) (7 ∷ 513 ∷ []) 4096 (5 ∷ 6 ∷ 7 ∷ []) (5 ∷ 6 ∷ 7 ∷ 8 ∷ [])
      (omega arith) (omega arith) refl refl

-- A file of 2024-03-29 with the time zone -1.
abbrev dated : FileInfo
dated =
    let noon : EfiTime = record {
      year = 2024;
      month = 3;
      day = 29;
      hour = 12;
      minute = 30;
      second = 15;
      nanosecond = 5;
      time_zone = 65535;
      daylight = 0;
    } in
    record {
      info = record {
        size = 0;
        file_size = 0;
        physical_size = 0;
        create_time = noon;
        last_access_time = noon;
        modification_time = noon;
        attribute = 0;
      };
      addr = 0;
      name = [];
    }

mod_time-dated :
    mod_time (λ z. z) (λ year month day hour minute second nanosecond zone. year + zone) dated
    ≡ 2024 + 18446744073709551615
unfolding mod_time
mod_time-dated = refl
