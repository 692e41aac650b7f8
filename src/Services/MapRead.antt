-- ===== src/Services/MapRead.antt =====
-- What GetMemoryMap of pkg/ueficore/mem.go hands back for a map that the firmware wrote.
use uki_stub.Common.{
  ℕ, suc, ◌+◌, ◌*◌, ◌≤◌, ◌≡◌, refl, sym, ap, ◌∙◌, none, some, List, [], ◌∷◌, ◌++◌, append_assoc,
  arith, length, drop, get_or, drop-append, drop-drop, length-append, All, ok,
}
use uki_stub.Status.{parse_status}
use uki_stub.Wire.{marshal, size_of}
use uki_stub.Wire.RoundTrip.{Fits, fields-marshal, length-marshal}
use uki_stub.Firmware.{Request, value, Firmware, Reply, buffer, reference, left_in, zeros}
use uki_stub.MemoryMap.{MemoryDescriptor, descriptor_layout, max_entries, decode_map}
use uki_stub.MemoryMap.Decode.{descriptors, decode_map_exact}
use uki_stub.Services.Boot.{
  BootServices, MemoryMap, service, get_memory_map, exit_boot_services, map_buffer_size,
  map_of_reply, read_descriptors, loop_bound,
}

-- The struct of a descriptor, with its two blank fields.
abbrev pub values_of : MemoryDescriptor → List ℕ
values_of d =
    d.type ∷ 0 ∷ d.physical_start ∷ d.virtual_start ∷ d.number_of_pages ∷ d.attribute ∷ 0 ∷ []

-- The bytes of a map, 48 for each descriptor.
unfoldable pub encode_map : List MemoryDescriptor → List ℕ
encode_map [] = []
encode_map (d ∷ ds) = marshal descriptor_layout (values_of d) ++ encode_map ds

-- The fields fit their widths.
abbrev pub IsDescriptor : MemoryDescriptor → Type 0
IsDescriptor d = Fits descriptor_layout (values_of d)

length-descriptor : (d : MemoryDescriptor) → length (marshal descriptor_layout (values_of d)) ≡ 48
unfolding size_of
length-descriptor d = length-marshal descriptor_layout (values_of d)

length-encode_map : (ds : List MemoryDescriptor) → length (encode_map ds) ≡ 48 * length ds
unfolding encode_map
length-encode_map [] = refl
length-encode_map (d ∷ ds) = omega (
  arith,
  length-append (marshal descriptor_layout (values_of d)) (encode_map ds),
  length-descriptor d,
  length-encode_map ds,
)

descriptors-encode_map :
    (ds : List MemoryDescriptor) (i : ℕ) (buf rest : List ℕ)
    → All IsDescriptor ds
    → drop i buf ≡ encode_map ds ++ rest
    → descriptors (length ds) i buf ≡ ds
unfolding encode_map descriptors
descriptors-encode_map [] i buf rest h e = refl
descriptors-encode_map (d ∷ ds) i buf rest (hd, h) e =
    let bytes = marshal descriptor_layout (values_of d) in
    let behind : drop i buf ≡ bytes ++ (encode_map ds ++ rest) =
      e ∙ append_assoc bytes (encode_map ds) rest in
    let first = fields-marshal descriptor_layout (values_of d) (encode_map ds ++ rest) hd in
    let dropped = rw (length-descriptor d) at (drop-append bytes (encode_map ds ++ rest)) in
    let next : drop (i + 48) buf ≡ encode_map ds ++ rest =
      sym (drop-drop i 48 buf) ∙ ap (drop 48) behind ∙ dropped in
    rw (behind, first) (ap (λ l. d ∷ l) (descriptors-encode_map ds (i + 48) buf rest h next))

read_descriptors-encode_map :
    (m : MemoryMap) (ds : List MemoryDescriptor) (rest : List ℕ)
    → m.map_size ≡ 48 * length ds
    → length ds ≤ max_entries
    → All IsDescriptor ds
    → read_descriptors m (encode_map ds ++ rest) ≡ ok (record m { descriptors = ds }, none)
unfolding read_descriptors
read_descriptors-encode_map m ds rest size few h =
    let n = length ds in
    let buf = encode_map ds ++ rest in
    let room : 48 * n ≤ length buf =
      omega (arith, length-append (encode_map ds) rest, length-encode_map ds) in
    let bound : loop_bound m.map_size ≡ 48 * n = ground (arith, few, size) in
    let exact = decode_map_exact n (suc max_entries) buf (omega (arith, few)) room in
    let decoded : decode_map (suc max_entries) buf (loop_bound m.map_size) 0 []
        ≡ some (ok (ds, none)) =
      ap (λ k. decode_map (suc max_entries) buf k 0 []) bound
      ∙ exact
      ∙ ap (λ l. some (ok (l, none))) (descriptors-encode_map ds 0 buf rest h refl) in
    rw (decoded, read_descriptors) refl

-- The map that GetMemoryMap hands back.
abbrev pub map_read : Reply → List MemoryDescriptor → MemoryMap
map_read r ds = record {
  map_size = 48 * length ds;
  descriptors = ds;
  map_key = left_in r 1 0;
  descriptor_size = left_in r 2 48;
  descriptor_version = left_in r 3 0;
}

-- The request to exit with a key.
abbrev pub exit_request : BootServices → ℕ → Request
exit_request s key = record { fn = service s 0xe8; args = value s.image_handle ∷ value key ∷ [] }

get_memory_map-encode_map :
    {W : Type 0} (fw : Firmware W) (s : BootServices) (w w' : W) (r : Reply)
    (ds : List MemoryDescriptor) (rest : List ℕ)
    → fw.call
        (record {
          fn = service s 0x38;
          args =
              reference map_buffer_size
              ∷ buffer (zeros map_buffer_size)
              ∷ reference 0
              ∷ reference 48
              ∷ reference 0
              ∷ [];
        })
        w
      ≡ (r, w')
    → r.status ≡ 0
    → left_in r 0 map_buffer_size ≡ 48 * length ds
    → get_or r.bufs 0 (zeros map_buffer_size) ≡ encode_map ds ++ rest
    → length ds ≤ max_entries
    → All IsDescriptor ds
    → get_memory_map fw s w ≡ (ok (map_read r ds, none), w')
unfolding get_memory_map map_of_reply parse_status
get_memory_map-encode_map fw s w w' r ds rest called fine size bytes few h =
    let m : MemoryMap = record {
      map_size = 48 * length ds;
      descriptors = [];
      map_key = left_in r 1 0;
      descriptor_size = left_in r 2 48;
      descriptor_version = left_in r 3 0;
    } in
    let read = read_descriptors-encode_map m ds rest refl few h in
    rw (called, fine, size, bytes, read) refl

-- If the firmware reports success, the size of `n` descriptors, and a buffer that starts with their
-- bytes, then GetMemoryMap hands back these descriptors, in order, beside the key, the size and the
-- version that the firmware left, and ExitBootServices hands back the same map and asks the firmware
-- to exit with the key of that map, for at most 1000 descriptors whose fields fit their widths.
pub exit_boot_services-encode_map :
    {W : Type 0} (fw : Firmware W) (s : BootServices) (w w' : W) (r : Reply)
    (ds : List MemoryDescriptor) (rest : List ℕ)
    → fw.call
        (record {
          fn = service s 0x38;
          args =
              reference map_buffer_size
              ∷ buffer (zeros map_buffer_size)
              ∷ reference 0
              ∷ reference 48
              ∷ reference 0
              ∷ [];
        })
        w
      ≡ (r, w')
    → r.status ≡ 0
    → left_in r 0 map_buffer_size ≡ 48 * length ds
    → get_or r.bufs 0 (zeros map_buffer_size) ≡ encode_map ds ++ rest
    → length ds ≤ max_entries
    → All IsDescriptor ds
    → (get_memory_map fw s w ≡ (ok (map_read r ds, none), w'))
      × (exit_boot_services fw s w ≡ (
        ok (map_read r ds, parse_status (fw.call (exit_request s (left_in r 1 0)) w').0.status),
        (fw.call (exit_request s (left_in r 1 0)) w').1,
      ))
unfolding exit_boot_services
exit_boot_services-encode_map fw s w w' r ds rest called fine size bytes few h =
    let read = get_memory_map-encode_map fw s w w' r ds rest called fine size bytes few h in
    (read, ground (arith, read))
