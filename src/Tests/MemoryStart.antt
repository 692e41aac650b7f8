-- ===== src/Tests/MemoryStart.antt =====
-- The memory map and the heap on firmware that writes a map.
use uki_stub.Common.{
  ℕ, suc, ◌^◌, ◌<◌, ◌≡◌, refl, none, some, true, All, List, [], ◌∷◌, ◌++◌, arith, ok, replicate,
}
use uki_stub.Status.{parse_status}
use uki_stub.Wire.{marshal}
use uki_stub.Firmware.{Firmware, Reply, zeros, decode}
use uki_stub.MemoryMap.{MemoryDescriptor}
use uki_stub.Services.Boot.{BootServices, MemoryMap, get_memory_map, exit_boot_services}
use uki_stub.Services.System.{Services, system_table_layout, system_table_of, signature, init}
use uki_stub.Services.MapRead.{IsDescriptor, encode_map, exit_boot_services-encode_map}
use uki_stub.Services.Heap.{start}
use uki_stub.Services.Region.{start-region}

abbrev descriptor : ℕ → ℕ → MemoryDescriptor
descriptor t start = record {
  type = t;
  physical_start = start;
  virtual_start = 0;
  number_of_pages = 1;
  attribute = 0;
}

descriptor-IsDescriptor :
    (t start : ℕ) → t < 256 ^ 4 → start < 256 ^ 8 → IsDescriptor (descriptor t start)
descriptor-IsDescriptor t start ht hs =
    let one : 1 < 256 ^ 8 = omega arith in
    let zero_8 : 0 < 256 ^ 8 = omega arith in
    (ht, (omega arith, (hs, (zero_8, (one, (zero_8, (zero_8, tt)))))))

-- Free memory, the image, and the region behind it.
abbrev three : List MemoryDescriptor
three = descriptor 7 0 ∷ descriptor 1 4096 ∷ descriptor 7 8192 ∷ []

abbrev three_written : Reply
three_written = record {
  status = 0;
  refs = 144 ∷ 77 ∷ 48 ∷ 1 ∷ [];
  bufs = (encode_map three ++ zeros 47856) ∷ [];
}

abbrev table_values : List ℕ
table_values = signature ∷ 0 ∷ 0 ∷ 0 ∷ 0 ∷ 0 ∷ 0 ∷ 0 ∷ 0 ∷ 5 ∷ 0 ∷ 6 ∷ 0 ∷ 0 ∷ 70 ∷ 80 ∷ 0 ∷ 0 ∷ []

-- It counts the calls.
abbrev mapping : Firmware ℕ
mapping = record {
  call = λ q calls. (three_written, suc calls);
  region = λ addr size count calls. ok (marshal system_table_layout table_values);
  load = λ addr size calls. replicate size 0;
  store = λ addr bs calls. calls;
}

abbrev boot : BootServices
boot = record { base = 80; image_handle = 3 }

abbrev map_of_three : MemoryMap
map_of_three = record {
  map_size = 144;
  descriptors = three;
  map_key = 77;
  descriptor_size = 48;
  descriptor_version = 1;
}

three-IsDescriptor : All IsDescriptor three
three-IsDescriptor = (
  descriptor-IsDescriptor 7 0 (omega arith) (omega arith),
  (
    descriptor-IsDescriptor 1 4096 (omega arith) (omega arith),
    (descriptor-IsDescriptor 7 8192 (omega arith) (omega arith), tt),
  ),
)

exit_boot_services-encode_map_example :
    (get_memory_map mapping boot 0 ≡ (ok (map_of_three, none), 1))
    × (exit_boot_services mapping boot 0 ≡ (ok (map_of_three, none), 2))
unfolding parse_status
exit_boot_services-encode_map_example =
    exit_boot_services-encode_map mapping boot 0 1 three_written three (zeros 47856) refl refl refl
      refl (omega arith) three-IsDescriptor

abbrev services : Services
services = record {
  system_table = system_table_of table_values;
  console = record { force_line = true; replace_tabs = 8; input = 5; output = 6 };
  boot = boot;
  runtime_base = 70;
  image_handle = 3;
  system_table_addr = 9;
}

init-mapping : init mapping 3 9 0 ≡ (ok services, 0)
unfolding init decode marshal
init-mapping = refl

map_is_read : get_memory_map mapping boot 0 ≡ (ok (map_of_three, none), 1)
map_is_read =
    (exit_boot_services-encode_map mapping boot 0 1 three_written three (zeros 47856) refl refl refl
      refl (omega arith) three-IsDescriptor).0

start-region_example : start mapping (λ calls. calls) 3 9 4096 0 0 ≡ (ok (some 8192), 2)
start-region_example =
    start-region mapping (λ calls. calls) 3 9 services 0 0 1 map_of_three (descriptor 7 0 ∷ [])
      (descriptor 1 4096) (descriptor 7 8192) [] 0 init-mapping map_is_read refl (refl, tt) refl
      (omega arith, omega arith)
