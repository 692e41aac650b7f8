-- ===== src/Tests/Memory.antt =====
-- The memory map.
use uki_stub.Common.{ℕ, suc, ◌≡◌, refl, Option, some, List, [], ◌∷◌, map, arith, Failure, ok}
use uki_stub.Firmware.{zeros, length-zeros}
use uki_stub.MemoryMap.{
  MemoryDescriptor, E820Types, MemRegion, decode_map, descriptor_e820, e820, max_entries,
}
use uki_stub.MemoryMap.Join.{types_at, types_at-e820, starts_at, ends_at, e820_joined}
use uki_stub.MemoryMap.Decode.{decode_map_total}
use uki_stub.MemoryMap.Join.{IsSeparated}

abbrev types : E820Types
types = record { ram = 1; reserved = 2; acpi = 3; nvs = 4 }

abbrev descriptor : ℕ → ℕ → MemoryDescriptor
descriptor t start = record {
  type = t;
  physical_start = start;
  virtual_start = 0;
  number_of_pages = 1;
  attribute = 0;
}

-- Three pages, the last of which starts the memory of the runtime, and one that is reserved.
abbrev map_of_four : List MemoryDescriptor
map_of_four = descriptor 7 0 ∷ descriptor 4 4096 ∷ descriptor 2 8192 ∷ descriptor 0 16384 ∷ []

abbrev region : MemRegion
region = record { ram_start = 8192; ram_end = 12288 }

e820-map_of_four :
    e820 types region map_of_four
    ≡ record { addr = 0; size = 8192; mem_type = 1 }
      ∷ record { addr = 8192; size = 4096; mem_type = 1 }
      ∷ record { addr = 16384; size = 4096; mem_type = 2 }
      ∷ []
unfolding e820 descriptor_e820
e820-map_of_four = refl

types_at-e820_example :
    types_at 5000 (e820 types region map_of_four)
    ≡ types_at 5000 (map (descriptor_e820 types) map_of_four)
types_at-e820_example =
    types_at-e820 types region map_of_four 5000 (unfold descriptor_e820 in omega arith)

e820_joined_example :
    (starts_at 8192 (e820 types region map_of_four)
      ≡ starts_at 8192 (map (descriptor_e820 types) map_of_four))
    × (ends_at 12288 (e820 types region map_of_four)
        ≡ ends_at 12288 (map (descriptor_e820 types) map_of_four))
    × IsSeparated region (e820 types region map_of_four)
e820_joined_example = e820_joined types region map_of_four

decode_map_total_example :
    (r : List MemoryDescriptor × Option Failure) × (decode_map
        (suc max_entries)
        (zeros 48000)
        77
        0
        []
      ≡ some (ok r))
decode_map_total_example = decode_map_total (zeros 48000) 77 (length-zeros 48000)
