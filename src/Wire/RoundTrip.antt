-- ===== src/Wire/RoundTrip.antt =====
-- Reading back what the little-endian codec wrote.
use native.Mathlib.Nat.{pow-suc}
use uki_stub.Common.{
  ℕ, zero, suc, ◌/◌, ◌%◌, ◌^◌, ◌≤◌, ◌<◌, ◌≡◌, refl, ap, List, [], ◌∷◌, ◌++◌, append_assoc, arith,
  length, take, drop, length-append, length-drop, take-add, All-drop, All, ok,
}
use uki_stub.Wire.{le_bytes, le_value, size_of, marshal, fields, unmarshal}

abbrev pub IsByte : ℕ → Type 0
IsByte b = b < 256

-- Every value fits the width of its field, and each field has a value.
abbrev pub Fits : List ℕ → List ℕ → Type 0
Fits [] [] = Unit {0}
Fits [] (v ∷ vs) = ⊥
Fits (w ∷ ws) [] = ⊥
Fits (w ∷ ws) (v ∷ vs) = (v < 256 ^ w) × Fits ws vs

pub length-le_bytes : (w v : ℕ) → length (le_bytes w v) ≡ w
unfolding le_bytes
length-le_bytes zero v = refl
length-le_bytes (suc w) v = ap suc (length-le_bytes w (v / 256))

pub le_value-le_bytes : (w v : ℕ) → v < 256 ^ w → le_value (le_bytes w v) ≡ v
unfolding le_bytes le_value
le_value-le_bytes zero v h = ground arith
le_value-le_bytes (suc w) v h =
    omega (arith, le_value-le_bytes w (v / 256) (omega (arith, pow-suc 256 w)))

pub le_bytes-le_value : (bs : List ℕ) → All IsByte bs → le_bytes (length bs) (le_value bs) ≡ bs
unfolding le_bytes le_value
le_bytes-le_value [] h = refl
le_bytes-le_value (b ∷ bs) (hb, h) = ground (arith, le_bytes-le_value bs h)

pub length-marshal : (ws vs : List ℕ) → length (marshal ws vs) ≡ size_of ws
unfolding marshal size_of
length-marshal [] vs = refl
length-marshal (w ∷ ws) [] =
    omega (
      arith,
      length-append (le_bytes w 0) (marshal ws []),
      length-le_bytes w 0,
      length-marshal ws [],
    )
length-marshal (w ∷ ws) (v ∷ vs) =
    omega (
      arith,
      length-append (le_bytes w v) (marshal ws vs),
      length-le_bytes w v,
      length-marshal ws vs,
    )

pub take-le_bytes : (w v : ℕ) (bs : List ℕ) → take w (le_bytes w v ++ bs) ≡ le_bytes w v
unfolding le_bytes
take-le_bytes zero v bs = refl
take-le_bytes (suc w) v bs = ap (λ (l : List ℕ). (v % 256) ∷ l) (take-le_bytes w (v / 256) bs)

pub drop-le_bytes : (w v : ℕ) (bs : List ℕ) → drop w (le_bytes w v ++ bs) ≡ bs
unfolding le_bytes
drop-le_bytes zero v bs = refl
drop-le_bytes (suc w) v bs = drop-le_bytes w (v / 256) bs

pub fields-marshal : (ws vs rest : List ℕ) → Fits ws vs → fields ws (marshal ws vs ++ rest) ≡ vs
unfolding fields marshal
fields-marshal [] [] rest h = refl
fields-marshal [] (v ∷ vs) rest h = absurd h
fields-marshal (w ∷ ws) [] rest h = absurd h
fields-marshal (w ∷ ws) (v ∷ vs) rest (hv, h) =
    rw (append_assoc, take-le_bytes w v, drop-le_bytes w v, le_value-le_bytes w v hv)
      (ap (λ (l : List ℕ). v ∷ l) (fields-marshal ws vs rest h))

-- `unmarshalBinary` gives back the struct that `marshalBinary` wrote, whatever follows it in the
-- buffer, if every value fits its field.
pub unmarshal-marshal :
    (ws vs rest : List ℕ) → Fits ws vs → unmarshal ws (marshal ws vs ++ rest) ≡ ok vs
unfolding unmarshal
unmarshal-marshal ws vs rest h =
    ground
      (arith, fields-marshal ws vs rest h, length-append (marshal ws vs) rest, length-marshal ws vs)

-- It succeeds exactly on the buffers that hold the whole struct.
pub unmarshal_total :
    (ws buf : List ℕ) → size_of ws ≤ length buf → unmarshal ws buf ≡ ok (fields ws buf)
unfolding unmarshal
unmarshal_total ws buf h = ground arith

le_bytes-take :
    (w : ℕ) (buf : List ℕ)
    → All IsByte buf
    → w ≤ length buf
    → le_bytes w (le_value (take w buf)) ≡ take w buf
unfolding le_bytes le_value
le_bytes-take zero buf h fits = refl
le_bytes-take (suc w) [] h fits = absurd (omega arith)
le_bytes-take (suc w) (b ∷ buf) (hb, h) fits = ground (arith, le_bytes-take w buf h (omega arith))

-- `marshalBinary` writes back the bytes that `unmarshalBinary` read, from a buffer that holds the
-- whole struct.
pub marshal-fields :
    (ws buf : List ℕ)
    → All IsByte buf
    → size_of ws ≤ length buf
    → marshal ws (fields ws buf) ≡ take (size_of ws) buf
unfolding marshal fields size_of
marshal-fields [] buf h fits = refl
marshal-fields (w ∷ ws) buf h fits =
    rw (take-add w (size_of ws) buf, le_bytes-take w buf h (omega arith))
      (ap (λ (l : List ℕ). take w buf ++ l)
        (marshal-fields ws (drop w buf) (All-drop IsByte w buf h)
          (omega (arith, length-drop w buf))))
