-- ===== src/MemoryMap.antt =====
-- pkg/ueficore/mem.go: the decoding of the firmware's memory map and its conversion to E820
-- entries. The numbers of the E820 memory types are those of the package bzimage, and the bounds of
-- the runtime's memory those of `runtime.MemRegion`: both are not part of the repository, and are
-- arguments.
pub mod Join
pub mod Decode
use uki_stub.Common.{
  ℕ, zero, suc, ◌+◌, ◌-◌, ◌*◌, ◌/◌, ◌%◌, ◌^◌, Bool, ◌&&◌, ◌||◌, not, Option, none, some, List, [],
  ◌∷◌, ◌++◌, map, ltb, leb, ◌==◌, if◌then◌else◌, length, get_or, drop, Failure, Outcome, ok, err,
  panic,
}
use uki_stub.Wire.{unmarshal}

abbrev pub page_size : ℕ
page_size = 4096

-- EFI_MEMORY_TYPE, the types that E820 tells apart.
abbrev pub efi_loader_code : ℕ
efi_loader_code = 1

abbrev pub efi_loader_data : ℕ
efi_loader_data = 2

abbrev pub efi_boot_services_code : ℕ
efi_boot_services_code = 3

abbrev pub efi_boot_services_data : ℕ
efi_boot_services_data = 4

abbrev pub efi_conventional_memory : ℕ
efi_conventional_memory = 7

abbrev pub efi_acpi_reclaim_memory : ℕ
efi_acpi_reclaim_memory = 9

abbrev pub efi_acpi_memory_nvs : ℕ
efi_acpi_memory_nvs = 10

abbrev pub efi_persistent_memory : ℕ
efi_persistent_memory = 14

abbrev pub address_range_persistent_memory : ℕ
address_range_persistent_memory = 7

pub record MemoryDescriptor : Type 0 where
  pub type : ℕ
  pub physical_start : ℕ
  pub virtual_start : ℕ
  pub number_of_pages : ℕ
  pub attribute : ℕ

-- The struct with its two blank fields.
abbrev pub descriptor_layout : List ℕ
descriptor_layout = 4 ∷ 4 ∷ 8 ∷ 8 ∷ 8 ∷ 8 ∷ 8 ∷ []

abbrev pub descriptor_of : List ℕ → MemoryDescriptor
descriptor_of vs = record {
  type = get_or vs 0 0;
  physical_start = get_or vs 2 0;
  virtual_start = get_or vs 3 0;
  number_of_pages = get_or vs 4 0;
  attribute = get_or vs 5 0;
}

unfoldable pub physical_end : MemoryDescriptor → ℕ
physical_end d = (d.physical_start + d.number_of_pages * page_size % 2 ^ 64) % 2 ^ 64

-- `int(d.NumberOfPages * PageSize)`, as the bits of the signed result.
unfoldable pub size : MemoryDescriptor → ℕ
size d = d.number_of_pages * page_size % 2 ^ 64

-- bzimage.RAM, Reserved, ACPI and NVS.
pub record E820Types : Type 0 where
  pub ram : ℕ
  pub reserved : ℕ
  pub acpi : ℕ
  pub nvs : ℕ

pub record E820Entry : Type 0 where
  pub addr : ℕ
  pub size : ℕ
  pub mem_type : ℕ

unfoldable pub e820_type : E820Types → ℕ → ℕ
e820_type types t =
    if t == efi_loader_code
      || t == efi_loader_data
      || t == efi_boot_services_code
      || t == efi_boot_services_data
      || t == efi_conventional_memory
    then types.ram
    else if t == efi_persistent_memory
    then address_range_persistent_memory
    else if t == efi_acpi_reclaim_memory
    then types.acpi
    else if t == efi_acpi_memory_nvs
    then types.nvs
    else types.reserved

unfoldable pub descriptor_e820 : E820Types → MemoryDescriptor → E820Entry
unfolding e820_type
descriptor_e820 types d = record {
  addr = d.physical_start;
  size = d.number_of_pages * page_size % 2 ^ 64;
  mem_type = e820_type types d.type;
}

-- `runtime.MemRegion()`
pub record MemRegion : Type 0 where
  pub ram_start : ℕ
  pub ram_end : ℕ

abbrev pub entry_end : E820Entry → ℕ
entry_end e = (e.addr + e.size) % 2 ^ 64

-- The test for joining an entry to the previous one.
unfoldable pub joins : MemRegion → E820Entry → E820Entry → Bool
joins r prev entry =
    (not (entry.addr == r.ram_start) && not (entry_end prev == r.ram_end))
    && (prev.mem_type == entry.mem_type && entry_end prev == entry.addr)

abbrev pub grow : E820Entry → ℕ → E820Entry
grow e n = record e { size = (e.size + n) % 2 ^ 64 }

-- `e820[len(e820)-1].Size += n`
unfoldable pub grow_last : List E820Entry → ℕ → List E820Entry
grow_last [] n = []
grow_last (e ∷ []) n = grow e n ∷ []
grow_last (e ∷ f ∷ es) n = e ∷ grow_last (f ∷ es) n

unfoldable pub last_entry : List E820Entry → Option E820Entry
last_entry [] = none
last_entry (e ∷ []) = some e
last_entry (e ∷ f ∷ es) = last_entry (f ∷ es)

-- The loop of MemoryMap.E820: the list built so far, and what `prev` points to.
unfoldable pub e820_loop :
    E820Types
    → MemRegion
    → List MemoryDescriptor
    → List E820Entry
    → Option E820Entry
    → List E820Entry
unfolding descriptor_e820 joins grow_last last_entry
e820_loop types r [] out prev = out
e820_loop types r (d ∷ ds) out none =
    let entry = descriptor_e820 types d in e820_loop types r ds (out ++ entry ∷ []) (some entry)
e820_loop types r (d ∷ ds) out (some prev) =
    let entry = descriptor_e820 types d in
    let grown = grow_last out entry.size in
    let joined = e820_loop types r ds grown (last_entry grown) in
    let apart = e820_loop types r ds (out ++ entry ∷ []) (some entry) in
    if joins r prev entry then joined else apart

unfoldable pub e820 : E820Types → MemRegion → List MemoryDescriptor → List E820Entry
unfolding e820_loop
e820 types r ds = e820_loop types r ds [] none

abbrev pub max_entries : ℕ
max_entries = 1000

-- The decoding loop of GetMemoryMap from offset `i` on: `int(m.MapSize)` bytes of the buffer, in
-- steps of the size of a descriptor. The descriptors read before an error are kept beside it. The
-- fuel is the number of rounds; `none` means that it ran out.
unfoldable pub decode_map :
    ℕ
    → List ℕ
    → ℕ
    → ℕ
    → List MemoryDescriptor
    → Option (Outcome (List MemoryDescriptor × Option Failure))
unfolding unmarshal
decode_map zero buf map_size i ds = none
decode_map (suc fuel) buf map_size i ds =
    let next =
      λ (vs : List ℕ). decode_map fuel buf map_size (i + 48) (ds ++ descriptor_of vs ∷ []) in
    if leb map_size i
    then some (ok (ds, none))
    else if ltb (length buf) i
    then some panic
    else elim (unmarshal descriptor_layout (drop i buf)) [
      | ok vs ↦ next vs
      | err e ↦ some (ok (ds, some e))
      | panic ↦ some panic
    ]
