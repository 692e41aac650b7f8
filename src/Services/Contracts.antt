-- ===== src/Services/Contracts.antt =====
-- What a read of a file and the memory map promise.
use uki_stub.Common.{
  ℕ, ◌*◌, ◌≤◌, ◌≡◌, ◌≢◌, ◌⊎◌, inl, inr, Option, none, some, List, [], ◌∷◌, arith, Option-cases,
  length, get_or, Failure, invalid_file_instance, eof, ok, panic, ◌==◌, ◌||◌, Bool-cases,
}
use uki_stub.Status.{parse_status, efi_device_error}
use uki_stub.Firmware.{Firmware, Request, value, buffer, reference, held, left_in, zeros, Reply}
use uki_stub.MemoryMap.{max_entries}
use uki_stub.MemoryMap.Decode.{decode_map_total}
use uki_stub.Services.Boot.{
  BootServices, MemoryMap, get_memory_map, map_buffer_size, map_of_reply, read_descriptors,
  loop_bound,
}
use uki_stub.Services.Files.{File, read}

module _ {W : Type 0} (fw : Firmware W) where
  -- What the firmware is asked to read.
  abbrev pub read_request : File → List ℕ → Request
  read_request f b = record {
    fn = held f.file.read_fn;
    args = value f.addr ∷ reference (length b) ∷ buffer b ∷ [];
  }

  -- The contract of io.Reader, if the firmware does not report more bytes for this reading than it
  -- was given room for: Read returns, with at most the bytes of the buffer, and with no bytes and no
  -- error only for an empty buffer.
  pub read_contract :
      (f : File) (b : List ℕ) (w : W)
      → left_in (fw.call (read_request f b) w).0 0 (length b) ≤ length b
      → (n : ℕ) × (b' : List ℕ) × (e : Option Failure) × (w' : W) × (read fw f b w
          ≡ (ok (n, b', e), w'))
        × (n ≤ length b)
        × ((1 ≤ n) ⊎ ((e ≢ none) ⊎ (length b ≡ 0)))
  unfolding read
  read_contract f b w fits = elim (Bool-cases (f.addr == 0)) [
    | inl shut ↦ (
      0,
      b,
      some invalid_file_instance,
      w,
      ground (arith, shut),
      omega arith,
      inr (inl (λ e. cc)),
    )
    | inr opened ↦ elim (Bool-cases (length b == 0)) [
      | inl empty ↦ (
        0,
        b,
        none,
        w,
        ground (arith, opened, empty),
        omega arith,
        inr (inr (ground (arith, empty))),
      )
      | inr some' ↦
          let r = (fw.call (read_request f b) w).0 in
          let w' = (fw.call (read_request f b) w).1 in
          let b' = get_or r.bufs 0 b in
          let n = left_in r 0 (length b) in
          elim (Bool-cases (r.status == efi_device_error || n == 0)) [
            | inl ended ↦ (
              0,
              b',
              some eof,
              w',
              ground (arith, opened, some', ended),
              omega arith,
              inr (inl (λ e. cc)),
            )
            | inr more ↦ (
              n,
              b',
              parse_status r.status,
              w',
              ground (arith, opened, some', more),
              fits,
              inl (ground (arith, more)),
            )
          ]
    ]
  ]

read_descriptors-ne-panic :
    (m : MemoryMap) (buf : List ℕ) → length buf ≡ 48 * max_entries → read_descriptors m buf ≢ panic
unfolding read_descriptors
read_descriptors-ne-panic m buf len =
    let (r, decoded) = decode_map_total buf (loop_bound m.map_size) len in
    rw (decoded, read_descriptors) (λ e. cc)

map_of_reply-ne-panic :
    (r : Reply)
    → length (get_or r.bufs 0 (zeros map_buffer_size)) ≡ 48 * max_entries
    → map_of_reply r ≢ panic
unfolding map_of_reply
map_of_reply-ne-panic r len = elim (Option-cases (parse_status r.status)) [
  | inl fine ↦ rw (fine, map_of_reply) (read_descriptors-ne-panic _ _ len)
  | inr (x, failed) ↦ rw (failed, map_of_reply) (λ e. cc)
]

-- If the firmware leaves the buffer of the map as long as it was, GetMemoryMap does not panic,
-- whatever status and size it reports.
pub get_memory_map-ne-panic :
    {W : Type 0} (fw : Firmware W) (s : BootServices) (w : W)
    → ((q : Request) (v : W)
        → length (get_or (fw.call q v).0.bufs 0 (zeros map_buffer_size)) ≡ 48 * max_entries)
    → (get_memory_map fw s w).0 ≢ panic
unfolding get_memory_map
get_memory_map-ne-panic fw s w keeps = map_of_reply-ne-panic _ (keeps _ w)
