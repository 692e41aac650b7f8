-- ===== src/MemoryMap/Decode.antt =====
-- The decoding loop of GetMemoryMap ends, and what it reads.
use uki_stub.Common.{
  ℕ, zero, suc, ◌+◌, ◌*◌, ◌≤◌, ◌<◌, ◌≡◌, inl, inr, Option, none, some, List, [], ◌∷◌, ◌++◌,
  append_assoc, append-nil, arith, leb, leb→le, le→leb, Bool-cases, length, drop, length-drop,
  Failure, buffer_too_small, ok,
}
use uki_stub.MemoryMap.{MemoryDescriptor, descriptor_layout, descriptor_of, max_entries, decode_map}
use uki_stub.Wire.{unmarshal, fields, size_of}

-- The `n` descriptors that lie one after another from an offset on, 48 bytes each.
unfoldable pub descriptors : ℕ → ℕ → List ℕ → List MemoryDescriptor
descriptors zero i buf = []
descriptors (suc n) i buf =
    descriptor_of (fields descriptor_layout (drop i buf)) ∷ descriptors n (i + 48) buf

decode_map-suc :
    (fuel : ℕ) (buf : List ℕ) (map_size i : ℕ) (ds : List MemoryDescriptor)
    → i < map_size
    → i + 48 ≤ length buf
    → decode_map (suc fuel) buf map_size i ds
      ≡ decode_map fuel buf map_size
          (i + 48)
          (ds ++ descriptor_of (fields descriptor_layout (drop i buf)) ∷ [])
unfolding decode_map
decode_map-suc fuel buf map_size i ds h fits =
    unfold unmarshal size_of in ground (arith, length-drop i buf)

decode_map_end :
    (fuel : ℕ) (buf : List ℕ) (map_size i : ℕ) (ds : List MemoryDescriptor)
    → map_size ≤ i
    → decode_map (suc fuel) buf map_size i ds ≡ some (ok (ds, none))
unfolding decode_map
decode_map_end fuel buf map_size i ds h = rw (le→leb map_size i h)

decode_map-descriptors :
    (n fuel : ℕ) (buf : List ℕ) (map_size i : ℕ) (ds : List MemoryDescriptor)
    → n < fuel
    → map_size ≡ i + 48 * n
    → map_size ≤ length buf
    → decode_map fuel buf map_size i ds ≡ some (ok (ds ++ descriptors n i buf, none))
unfolding descriptors
decode_map-descriptors n zero buf map_size i ds h e fits = absurd (omega arith)
decode_map-descriptors zero (suc fuel) buf map_size i ds h e fits =
    rw (decode_map_end fuel buf map_size i ds (omega arith), append-nil)
decode_map-descriptors (suc n) (suc fuel) buf map_size i ds h e fits =
    let d = descriptor_of (fields descriptor_layout (drop i buf)) in
    rw (
      decode_map-suc fuel buf map_size i ds (omega arith) (omega arith),
      decode_map-descriptors n fuel buf map_size (i + 48) (ds ++ d ∷ []) (omega arith) (omega arith)
          fits,
      append_assoc,
    )

-- A map of `n` times 48 bytes in the buffer is decoded into its `n` descriptors, one for each 48
-- bytes, without an error, if the fuel is above `n`.
pub decode_map_exact :
    (n fuel : ℕ) (buf : List ℕ)
    → n < fuel
    → 48 * n ≤ length buf
    → decode_map fuel buf (48 * n) 0 [] ≡ some (ok (descriptors n 0 buf, none))
decode_map_exact n fuel buf h fits =
    decode_map-descriptors n fuel buf (48 * n) 0 [] h (omega arith) fits

decode_map_short :
    (fuel : ℕ) (buf : List ℕ) (map_size i : ℕ) (ds : List MemoryDescriptor)
    → i < map_size
    → i ≡ length buf
    → decode_map (suc fuel) buf map_size i ds ≡ some (ok (ds, some buffer_too_small))
unfolding decode_map
decode_map_short fuel buf map_size i ds h e =
    unfold unmarshal size_of in ground (arith, length-drop i buf)

decode_map-ok :
    (n fuel : ℕ) (buf : List ℕ) (map_size i : ℕ) (ds : List MemoryDescriptor)
    → n < fuel
    → length buf ≡ i + 48 * n
    → (r : List MemoryDescriptor × Option Failure) × (decode_map fuel buf map_size i ds
        ≡ some (ok r))
decode_map-ok n zero buf map_size i ds h e = absurd (omega arith)
decode_map-ok zero (suc fuel) buf map_size i ds h e = elim (Bool-cases (leb map_size i)) [
  | inl done ↦ ((ds, none), decode_map_end fuel buf map_size i ds (leb→le _ _ done))
  | inr more ↦ (
    (ds, some buffer_too_small),
    decode_map_short fuel buf map_size i ds (ground arith) (omega arith),
  )
]
decode_map-ok (suc n) (suc fuel) buf map_size i ds h e = elim (Bool-cases (leb map_size i)) [
  | inl done ↦ ((ds, none), decode_map_end fuel buf map_size i ds (leb→le _ _ done))
  | inr more ↦
      let d = descriptor_of (fields descriptor_layout (drop i buf)) in
      rw (decode_map-suc fuel buf map_size i ds (ground arith) (omega arith))
        (decode_map-ok n fuel buf map_size (i + 48) (ds ++ d ∷ []) (omega arith) (omega arith))
]

-- On the buffer of 48 * 1000 bytes the loop ends within 1001 rounds and does not panic, whatever
-- size the firmware reports for the map.
pub decode_map_total :
    (buf : List ℕ) (map_size : ℕ)
    → length buf ≡ 48 * max_entries
    → (r : List MemoryDescriptor × Option Failure) × (decode_map (suc max_entries) buf map_size 0 []
        ≡ some (ok r))
decode_map_total buf map_size len =
    decode_map-ok max_entries (suc max_entries) buf map_size 0 [] (omega arith) (omega arith)
