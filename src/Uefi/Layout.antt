-- ===== src/Uefi/Layout.antt =====
-- The structs of pkg/uefi in memory, beside the packed structs with blank fields that pkg/ueficore
-- declares for the same data.
use uki_stub.Common.{
  ℕ, zero, suc, ◌+◌, ◌*◌, ◌<◌, ◌≡◌, refl, ap, ◌∙◌, List, [], ◌∷◌, arith, take, drop, get_or,
  drop-drop, replicate,
}
use uki_stub.MemoryMap.{descriptor_layout, descriptor_of}
use uki_stub.Wire.{le_value, fields}
use uki_stub.Services.Boot.{loaded_image_layout, loaded_image_of}
use uki_stub.Services.System.{
  system_table_layout, system_table_of, protocol_mode_layout, protocol_mode_of,
  mode_information_layout, mode_information_of,
}
use uki_stub.Services.Files.{file_protocol_layout, file_protocol_of, file_info_layout, info_of}
use uki_stub.Uefi.Structs.{
  efi_memory_descriptor, descriptor_from, gap, go_reads, go_offsets, efi_system_table,
  efi_boot_services, efi_runtime_services, efi_loaded_image, efi_graphics_mode,
  efi_mode_information, efi_file_protocol, efi_file_info, system_table_from, loaded_image_from,
  known_of, known_from,
}

-- The values of packed fields behind an offset.
at_offsets : ℕ → List ℕ → List ℕ → List ℕ
at_offsets off [] buf = []
at_offsets off (w ∷ ws) buf = le_value (take w (drop off buf)) ∷ at_offsets (off + w) ws buf

fields-drop : (off : ℕ) (ws buf : List ℕ) → fields ws (drop off buf) ≡ at_offsets off ws buf
unfolding fields at_offsets
fields-drop off [] buf = refl
fields-drop off (w ∷ ws) buf =
    ap (λ l. le_value (take w (drop off buf)) ∷ l)
      (ap (fields ws) (drop-drop off w buf) ∙ fields-drop (off + w) ws buf)

system_table_agrees :
    (buf : List ℕ)
    → system_table_of (fields system_table_layout buf)
      ≡ system_table_from (go_reads 0 efi_system_table buf)
unfolding go_reads at_offsets
system_table_agrees buf = ap system_table_of (fields-drop 0 system_table_layout buf)

loaded_image_agrees :
    (buf : List ℕ)
    → loaded_image_of (fields loaded_image_layout buf)
      ≡ loaded_image_from (go_reads 0 efi_loaded_image buf)
unfolding go_reads at_offsets
loaded_image_agrees buf = ap loaded_image_of (fields-drop 0 loaded_image_layout buf)

protocol_mode_agrees :
    (buf : List ℕ)
    → protocol_mode_of (fields protocol_mode_layout buf)
      ≡ protocol_mode_of (go_reads 0 efi_graphics_mode buf)
unfolding go_reads at_offsets
protocol_mode_agrees buf = ap protocol_mode_of (fields-drop 0 protocol_mode_layout buf)

mode_information_agrees :
    (buf : List ℕ)
    → mode_information_of (fields mode_information_layout buf)
      ≡ mode_information_of (go_reads 0 efi_mode_information buf)
unfolding go_reads at_offsets
mode_information_agrees buf = ap mode_information_of (fields-drop 0 mode_information_layout buf)

file_protocol_agrees :
    (buf : List ℕ)
    → file_protocol_of (fields file_protocol_layout buf)
      ≡ file_protocol_of (go_reads 0 efi_file_protocol buf)
unfolding go_reads at_offsets
file_protocol_agrees buf = ap file_protocol_of (fields-drop 0 file_protocol_layout buf)

file_info_agrees :
    (buf : List ℕ)
    → known_of (info_of (fields file_info_layout buf)) ≡ known_from (go_reads 0 efi_file_info buf)
unfolding go_reads at_offsets
file_info_agrees buf = ap (λ vs. known_of (info_of vs)) (fields-drop 0 file_info_layout buf)

descriptor_agrees :
    (buf : List ℕ)
    → descriptor_of (fields descriptor_layout buf)
      ≡ descriptor_from (go_reads 0 efi_memory_descriptor buf)
unfolding go_reads at_offsets
descriptor_agrees buf = ap descriptor_of (fields-drop 0 descriptor_layout buf)

slots_at : (n k i : ℕ) → i < n → get_or (go_offsets (8 * k) (replicate n 8)) i 0 ≡ 8 * k + 8 * i
unfolding go_offsets
slots_at zero k i h = omega (arith, h)
slots_at (suc n) k zero h = omega arith
slots_at (suc n) k (suc i) h =
    let next : 8 * k + gap (8 * k) 8 + 8 ≡ 8 * suc k = omega arith in
    rw next (slots_at n (suc k) i (omega (arith, h)) ∙ omega arith)

-- For any bytes, the structs that ueficore decodes agree with those of the package uefi at the same
-- address: the system table, the loaded image, the mode of the graphics output, its information, the
-- file protocol, the sizes, the attribute and year to second of the times of a file information, and
-- the memory descriptor. Function `i` of the 44 of the boot services, and `j` of the 14 of the
-- runtime services, stand at 24 + 8 * i and 24 + 8 * j.
pub layouts_agree :
    (buf : List ℕ) (i j : ℕ)
    → i < 44
    → j < 14
    → (system_table_of (fields system_table_layout buf)
        ≡ system_table_from (go_reads 0 efi_system_table buf))
      × (loaded_image_of (fields loaded_image_layout buf)
          ≡ loaded_image_from (go_reads 0 efi_loaded_image buf))
      × (protocol_mode_of (fields protocol_mode_layout buf)
          ≡ protocol_mode_of (go_reads 0 efi_graphics_mode buf))
      × (mode_information_of (fields mode_information_layout buf)
          ≡ mode_information_of (go_reads 0 efi_mode_information buf))
      × (file_protocol_of (fields file_protocol_layout buf)
          ≡ file_protocol_of (go_reads 0 efi_file_protocol buf))
      × (known_of (info_of (fields file_info_layout buf))
          ≡ known_from (go_reads 0 efi_file_info buf))
      × (descriptor_of (fields descriptor_layout buf)
          ≡ descriptor_from (go_reads 0 efi_memory_descriptor buf))
      × (get_or (drop 5 (go_offsets 0 efi_boot_services)) i 0 ≡ 24 + 8 * i)
      × (get_or (drop 5 (go_offsets 0 efi_runtime_services)) j 0 ≡ 24 + 8 * j)
unfolding go_offsets
layouts_agree buf i j hi hj = (
  system_table_agrees buf,
  loaded_image_agrees buf,
  protocol_mode_agrees buf,
  mode_information_agrees buf,
  file_protocol_agrees buf,
  file_info_agrees buf,
  descriptor_agrees buf,
  slots_at 44 3 i hi,
  slots_at 14 3 j hj,
)
