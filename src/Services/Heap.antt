-- ===== src/Services/Heap.antt =====
-- pkg/ueficore/x64: allocateHeap of mem.go, for the memory region that the runtime reports, and init
-- of x64.go.
use uki_stub.Common.{
  ℕ, ◌+◌, ◌-◌, ◌%◌, ◌^◌, ◌&&◌, Option, none, some, List, [], ◌∷◌, ltb, ◌==◌, if◌then◌else◌, ok, err,
  panic,
}
use uki_stub.Firmware.{Firmware, M, return, attempt, crash, ◌>>=◌}
use uki_stub.MemoryMap.{MemoryDescriptor, physical_end, size, efi_loader_code, efi_loader_data}
use uki_stub.Services.Boot.{BootServices, get_memory_map, allocate_pages}
use uki_stub.Services.System.{init}

-- The heap begins behind the image and ends with the region that follows. `none` is that RamSize
-- stays as it was.
pub record Heap : Type 0 where
  pub heap_start : ℕ
  pub ram_end : ℕ
  pub ram_size : Option ℕ

unfoldable pub find_heap : ℕ → List MemoryDescriptor → Heap → Heap
unfolding physical_end size
find_heap ram_start [] heap = heap
find_heap ram_start (d ∷ ds) heap =
    let found = find_heap ram_start ds (record heap { heap_start = physical_end d }) in
    let skipped = find_heap ram_start ds heap in
    if ltb 0 heap.heap_start
    then (let ram_end = (heap.heap_start + size d) % 2 ^ 64 in
        record heap {
          ram_end = ram_end;
          ram_size = some ((ram_end + (2 ^ 64 - ram_start % 2 ^ 64)) % 2 ^ 64);
        })
    else if d.type == efi_loader_code && d.physical_start == ram_start
    then found
    else skipped

module _ {W : Type 0} (fw : Firmware W) (s : BootServices) where
  -- The pages are asked for also if no heap was found. Their error is printed.
  unfoldable pub allocate_heap : ℕ → ℕ → M W (Option ℕ)
  allocate_heap ram_start ram_end = do
    (m, e) ← get_memory_map fw s
    elim e [
      | some _ ↦ return none
      | none ↦ do
        let heap =
            find_heap ram_start m.descriptors
              (record { heap_start = 0; ram_end = ram_end; ram_size = none })
        _ ←
            allocate_pages fw s 2 efi_loader_data
              ((heap.ram_end + (2 ^ 64 - heap.heap_start % 2 ^ 64)) % 2 ^ 64) heap.heap_start
        return heap.ram_size
    ]

-- init of x64.go, where `set_time` stands for the clock of tamago. The error of Services.Init is
-- printed, and the pointer UEFI.Boot, nil then, is followed by GetMemoryMap.
module _ {W : Type 0} (fw : Firmware W) (set_time : W → W) where
  unfoldable pub start : ℕ → ℕ → ℕ → ℕ → M W (Option ℕ)
  start image_handle system_table ram_start ram_end w =
      (attempt (init fw image_handle system_table) >>= (λ s. elim s [
        | ok services ↦ allocate_heap fw services.boot ram_start ram_end
        | err _ ↦ crash
        | panic ↦ crash
      ]))
        (set_time w)
