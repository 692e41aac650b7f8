-- ===== src/Wire.antt =====
-- pkg/ueficore/desc.go, marshalBinary and unmarshalBinary: `encoding/binary` in little-endian order
-- on structs of fixed-size fields, packed with no padding. A struct is the list of the widths of
-- its fields in bytes, and its value the list of their values.
pub mod RoundTrip
pub mod Splice
use uki_stub.Common.{
  ℕ, zero, suc, ◌+◌, ◌*◌, ◌/◌, ◌%◌, List, [], ◌∷◌, ◌++◌, if◌then◌else◌, ltb, length, take, drop,
  Outcome, ok, err, buffer_too_small,
}

-- The `w` low bytes of `v`, lowest first.
unfoldable pub le_bytes : ℕ → ℕ → List ℕ
le_bytes zero v = []
le_bytes (suc w) v = (v % 256) ∷ le_bytes w (v / 256)

unfoldable pub le_value : List ℕ → ℕ
le_value [] = 0
le_value (b ∷ bs) = b + 256 * le_value bs

-- The size of a struct: the sum of its fields' widths.
unfoldable pub size_of : List ℕ → ℕ
size_of [] = 0
size_of (w ∷ ws) = w + size_of ws

-- The value of every field; a missing value is a zero field.
unfoldable pub marshal : List ℕ → List ℕ → List ℕ
unfolding le_bytes
marshal [] vs = []
marshal (w ∷ ws) [] = le_bytes w 0 ++ marshal ws []
marshal (w ∷ ws) (v ∷ vs) = le_bytes w v ++ marshal ws vs

unfoldable pub fields : List ℕ → List ℕ → List ℕ
unfolding le_value
fields [] buf = []
fields (w ∷ ws) buf = le_value (take w buf) ∷ fields ws (drop w buf)

-- `binary.Decode` refuses a buffer that is shorter than the struct, and ignores what follows it.
unfoldable pub unmarshal : List ℕ → List ℕ → Outcome (List ℕ)
unfolding size_of fields
unmarshal ws buf =
    if ltb (length buf) (size_of ws) then err buffer_too_small else ok (fields ws buf)
