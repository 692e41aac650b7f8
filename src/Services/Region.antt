-- ===== src/Services/Region.antt =====
-- Where allocateHeap of pkg/ueficore/x64/mem.go puts the heap.
use uki_stub.Common.{
  ℕ, ◌+◌, ◌-◌, ◌*◌, ◌/◌, ◌%◌, ◌^◌, ◌<◌, ◌&&◌, Bool, false, ◌==◌, ◌≡◌, refl, ap, ◌∙◌, none, some,
  List, [], ◌∷◌, ◌++◌, arith, All, ok, err, panic, Failure,
}
use uki_stub.Firmware.{Firmware, value, reference}
use uki_stub.MemoryMap.{
  MemoryDescriptor, page_size, physical_end, size, efi_loader_code, efi_loader_data,
}
use uki_stub.Services.Boot.{BootServices, MemoryMap, service, get_memory_map, allocate_pages}
use uki_stub.Services.System.{Services, init}
use uki_stub.Services.Heap.{Heap, find_heap, allocate_heap, start}

-- The region of the image begins where the memory of the runtime does.
abbrev pub is_image : ℕ → MemoryDescriptor → Bool
is_image ram_start d = d.type == efi_loader_code && d.physical_start == ram_start

-- The image `code` and the region `next` behind it, as the heap is then set.
abbrev pub heap_behind : MemoryDescriptor → MemoryDescriptor → Heap
heap_behind code next =
    let image = code.number_of_pages * page_size in
    let region = next.number_of_pages * page_size in
    record {
      heap_start = code.physical_start + image;
      ram_end = code.physical_start + image + region;
      ram_size = some (image + region);
    }

-- Neither end wraps around, and the image is not empty at address 0.
abbrev pub InReach : MemoryDescriptor → MemoryDescriptor → Type 0
InReach code next =
    (0 < code.physical_start + code.number_of_pages)
    × (code.physical_start + (code.number_of_pages + next.number_of_pages) * page_size < 2 ^ 64)

find_heap_next :
    (code next : MemoryDescriptor) (after : List MemoryDescriptor) (heap : Heap)
    → InReach code next
    → find_heap code.physical_start (next ∷ after) (record heap { heap_start = physical_end code })
      ≡ record heap {
        heap_start = (heap_behind code next).heap_start;
        ram_end = (heap_behind code next).ram_end;
        ram_size = (heap_behind code next).ram_size;
      }
unfolding find_heap size physical_end
find_heap_next code next after heap (some_place, fits) = ground arith

find_heap_image :
    (code : MemoryDescriptor) (behind : List MemoryDescriptor) (heap : Heap)
    → code.type ≡ efi_loader_code
    → heap.heap_start ≡ 0
    → find_heap code.physical_start (code ∷ behind) heap
      ≡ find_heap code.physical_start behind (record heap { heap_start = physical_end code })
unfolding find_heap
find_heap_image code behind heap kind fresh = ground (arith, kind, fresh)

find_heap_other :
    (ram_start : ℕ) (d : MemoryDescriptor) (behind : List MemoryDescriptor) (heap : Heap)
    → is_image ram_start d ≡ false
    → heap.heap_start ≡ 0
    → find_heap ram_start (d ∷ behind) heap ≡ find_heap ram_start behind heap
unfolding find_heap
find_heap_other ram_start d behind heap other fresh = ground (arith, other, fresh)

find_heap-before :
    (before : List MemoryDescriptor) (code next : MemoryDescriptor) (after : List MemoryDescriptor)
    (heap : Heap)
    → All (λ d. is_image code.physical_start d ≡ false) before
    → code.type ≡ efi_loader_code
    → heap.heap_start ≡ 0
    → InReach code next
    → find_heap code.physical_start (before ++ code ∷ next ∷ after) heap ≡ heap_behind code next
find_heap-before [] code next after heap others kind fresh reach =
    find_heap_image code (next ∷ after) heap kind fresh ∙ find_heap_next code next after heap reach
find_heap-before (d ∷ before) code next after heap (other, others) kind fresh reach =
    find_heap_other code.physical_start d (before ++ code ∷ next ∷ after) heap other fresh
    ∙ find_heap-before before code next after heap others kind fresh reach

-- The pages that are asked for are those of the region.
region_size :
    (code next : MemoryDescriptor)
    → InReach code next
    → (((heap_behind code next).ram_end + (2 ^ 64 - (heap_behind code next).heap_start % 2 ^ 64))
          % 2 ^ 64)
        / page_size
      ≡ next.number_of_pages
region_size code next (some_place, fits) = omega (arith, fits)

allocate_heap-region :
    {W : Type 0} (fw : Firmware W) (s : BootServices) (w w' : W) (m : MemoryMap)
    (before : List MemoryDescriptor) (code next : MemoryDescriptor) (after : List MemoryDescriptor)
    (ram_end : ℕ)
    → get_memory_map fw s w ≡ (ok (m, none), w')
    → m.descriptors ≡ before ++ code ∷ next ∷ after
    → All (λ d. is_image code.physical_start d ≡ false) before
    → code.type ≡ efi_loader_code
    → InReach code next
    → allocate_heap fw s code.physical_start ram_end w ≡ (
      ok (heap_behind code next).ram_size,
      (fw.call
          (record {
            fn = service s 0x28;
            args =
                value 2
                ∷ value efi_loader_data
                ∷ value next.number_of_pages
                ∷ reference (code.physical_start + code.number_of_pages * page_size)
                ∷ [];
          })
          w').1,
    )
unfolding allocate_heap allocate_pages
allocate_heap-region fw s w w' m before code next after ram_end mapped order others kind reach =
    let heap : Heap = record { heap_start = 0; ram_end = ram_end; ram_size = none } in
    let found = find_heap-before before code next after heap others kind refl reach in
    let taken = ap (λ ds. find_heap code.physical_start ds heap) order ∙ found in
    ground (arith, mapped, taken, region_size code next reach)

module _ {W : Type 0} (fw : Firmware W) (set_time : W → W) where
  -- If the services are set up, GetMemoryMap answers with a map in which the first region of loader
  -- code at the start of the memory of the runtime is followed by another, neither wraps around and the image
  -- does not end at 0, then init asks the firmware for exactly the pages of that next region, at the
  -- end of the image, and sets RamSize to the size of both, whatever the firmware answers.
  pub start-region :
      (image_handle system_table : ℕ) (services : Services) (w w1 w2 : W) (m : MemoryMap)
      (before : List MemoryDescriptor) (code next : MemoryDescriptor)
      (after : List MemoryDescriptor) (ram_end : ℕ)
      → init fw image_handle system_table (set_time w) ≡ (ok services, w1)
      → get_memory_map fw services.boot w1 ≡ (ok (m, none), w2)
      → m.descriptors ≡ before ++ code ∷ next ∷ after
      → All (λ d. is_image code.physical_start d ≡ false) before
      → code.type ≡ efi_loader_code
      → InReach code next
      → start fw set_time image_handle system_table code.physical_start ram_end w ≡ (
        ok (some ((code.number_of_pages + next.number_of_pages) * page_size)),
        (fw.call
            (record {
              fn = service services.boot 0x28;
              args =
                  value 2
                  ∷ value efi_loader_data
                  ∷ value next.number_of_pages
                  ∷ reference (code.physical_start + code.number_of_pages * page_size)
                  ∷ [];
            })
            w2).1,
      )
  unfolding start
  start-region ih st services w w1 w2 m before code next after ram_end ready mapped order others
        kind reach =
      let ended =
        allocate_heap-region fw services.boot w1 w2 m before code next after ram_end mapped order
          others kind reach in
      let whole : code.number_of_pages * page_size + next.number_of_pages * page_size
          ≡ (code.number_of_pages + next.number_of_pages) * page_size =
        omega arith in
      ground (arith, ready, ended, whole)

  -- If Services.Init ends with an error, init panics.
  start-panic :
      (image_handle system_table ram_start ram_end : ℕ) (w w1 : W) (e : Failure)
      → init fw image_handle system_table (set_time w) ≡ (err e, w1)
      → start fw set_time image_handle system_table ram_start ram_end w ≡ (panic, w1)
  unfolding start
  start-panic image_handle system_table ram_start ram_end w w1 e failed = ground (arith, failed)
