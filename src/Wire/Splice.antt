-- ===== src/Wire/Splice.antt =====
-- Bytes written over one field of a struct in memory.
use uki_stub.Common.{
  ℕ, zero, suc, ◌+◌, ◌≤◌, ◌<◌, ◌^◌, ◌≡◌, refl, ap, List, [], ◌∷◌, ◌++◌, append_assoc, arith, length,
  take, drop, get_or, length-append, length-take, length-drop, take-add, take-append, drop-append,
  drop-drop,
}
use uki_stub.Wire.{le_bytes, le_value, size_of, fields}
use uki_stub.Wire.RoundTrip.{length-le_bytes, le_value-le_bytes, take-le_bytes, drop-le_bytes}

abbrev pub splice : List ℕ → ℕ → List ℕ → List ℕ
splice buf off bytes = take off buf ++ (bytes ++ drop (off + length bytes) buf)

abbrev pub set_at : ℕ → ℕ → List ℕ → List ℕ
set_at i v [] = []
set_at zero v (x ∷ xs) = v ∷ xs
set_at (suc i) v (x ∷ xs) = x ∷ set_at i v xs

-- The offset of a field.
abbrev pub offset_of : ℕ → List ℕ → ℕ
offset_of zero ws = 0
offset_of (suc i) [] = 0
offset_of (suc i) (w ∷ ws) = w + offset_of i ws

module _ (buf : List ℕ) (w : ℕ) (h : w ≤ length buf) (off : ℕ) (bytes : List ℕ) where
  prefix_length : length (take w buf) ≡ w
  prefix_length = omega (arith, length-take w buf)

  splice_apart : splice buf (w + off) bytes ≡ take w buf ++ splice (drop w buf) off bytes
  splice_apart =
      let tail = drop-drop w (off + length bytes) buf in
      let e : w + off + length bytes ≡ w + (off + length bytes) = omega arith in
      rw (take-add w off buf, append_assoc, tail, e) refl

  take-splice : take w (splice buf (w + off) bytes) ≡ take w buf
  take-splice =
      let e = take-append (take w buf) (splice (drop w buf) off bytes) in
      rw splice_apart (rw prefix_length at e)

  drop-splice : drop w (splice buf (w + off) bytes) ≡ splice (drop w buf) off bytes
  drop-splice =
      let e = drop-append (take w buf) (splice (drop w buf) off bytes) in
      rw splice_apart (rw prefix_length at e)

pub length-splice :
    (buf : List ℕ) (off : ℕ) (bytes : List ℕ)
    → off + length bytes ≤ length buf
    → length (splice buf off bytes) ≡ length buf
length-splice buf off bytes h =
    let rest = drop (off + length bytes) buf in
    omega (
      arith,
      length-append (take off buf) (bytes ++ rest),
      length-append bytes rest,
      length-take off buf,
      length-drop (off + length bytes) buf,
    )

-- A value written over the bytes of the field with index `i` changes that field and no other.
pub fields-splice :
    (i : ℕ) (ws buf : List ℕ) (v : ℕ)
    → size_of ws ≤ length buf
    → v < 256 ^ get_or ws i 0
    → fields ws (splice buf (offset_of i ws) (le_bytes (get_or ws i 0) v))
      ≡ set_at i v (fields ws buf)
unfolding fields size_of
fields-splice i [] buf v h hv = refl
fields-splice zero (w ∷ ws) buf v h hv =
    let z : 0 + w ≡ w = omega arith in
    rw (take-le_bytes w v, drop-le_bytes w v, le_value-le_bytes w v hv, length-le_bytes w v, z) refl
fields-splice (suc i) (w ∷ ws) buf v h hv =
    let bytes = le_bytes (get_or ws i 0) v in
    rw
      (
        take-splice buf w (omega arith) (offset_of i ws) bytes,
        drop-splice buf w (omega arith) (offset_of i ws) bytes,
      )
      (ap (λ l. le_value (take w buf) ∷ l)
        (fields-splice i ws (drop w buf) v (omega (arith, length-drop w buf)) hv))
