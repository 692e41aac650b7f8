-- ===== src/Guid.antt =====
-- pkg/ueficore/guid.go and the registry format of pkg/ueficore/config.go: a GUID between its text
-- and its 16 bytes. A text is the list of its bytes.
pub mod RoundTrip
use Prim.Native.Char.{code}
use Prim.Native.String.{String}
use uki_stub.Common.{
  ℕ, zero, suc, ◌+◌, ◌-◌, ◌*◌, ◌/◌, ◌%◌, ◌^◌, Bool, true, false, ◌&&◌, ◌||◌, Option, none, some,
  List, [], ◌∷◌, ◌++◌, ltb, leb, ◌==◌, if◌then◌else◌, length, get_or, take, drop, replicate, slice,
}
use uki_stub.Wire.{le_value}

abbrev pub codes : String → List ℕ
codes String.[] = []
codes (String.◌∷◌ c s) = code c ∷ codes s

-- The value of a hexadecimal digit of either case.
unfoldable pub hex_value : ℕ → Option ℕ
hex_value c =
    if leb b'0' c && leb c b'9'
    then some (c - b'0')
    else if leb b'a' c && leb c b'f'
    then some (c - b'a' + 10)
    else if leb b'A' c && leb c b'F'
    then some (c - b'A' + 10)
    else none

abbrev is_xdigit : ℕ → Bool
is_xdigit c = elim (hex_value c) [ none ↦ false | some v ↦ true ]

-- `[[:xdigit:]]{n}`: the `n` digits and what follows them.
unfoldable pub take_group : ℕ → List ℕ → Option (List ℕ × List ℕ)
take_group zero s = some ([], s)
take_group (suc n) [] = none
take_group (suc n) (c ∷ s) =
    let rest = take_group n s in
    if is_xdigit c then elim rest [ none ↦ none | some (ds, t) ↦ some (c ∷ ds, t) ] else none

-- A group and the dash behind it.
unfoldable pub take_dashed : ℕ → List ℕ → Option (List ℕ × List ℕ)
take_dashed n s = elim (take_group n s) [
  | none ↦ none
  | some (ds, []) ↦ none
  | some (ds, c ∷ t) ↦ if c == b'-' then some (ds, t) else none
]

-- The last group, up to the end of the text.
unfoldable pub take_last : ℕ → List ℕ → Option (List ℕ)
take_last n s = elim (take_group n s) [
  | none ↦ none
  | some (ds, []) ↦ some ds
  | some (ds, c ∷ t) ↦ none
]

-- `guidPattern.FindStringSubmatch(s)` without the whole match; `none` if nothing matches.
unfoldable pub find_submatch : List ℕ → Option (List (List ℕ))
find_submatch s = elim (take_dashed 8 s) [
  | none ↦ none
  | some (a, s1) ↦ elim (take_dashed 4 s1) [
    | none ↦ none
    | some (b, s2) ↦ elim (take_dashed 4 s2) [
      | none ↦ none
      | some (c, s3) ↦ elim (take_dashed 4 s3) [
        | none ↦ none
        | some (d, s4) ↦ elim (take_last 12 s4) [
          | none ↦ none
          | some e ↦ some (a ∷ b ∷ c ∷ d ∷ e ∷ [])
        ]
      ]
    ]
  ]
]

-- `hex.DecodeString`: `none` for an odd length or a byte that is no digit.
unfoldable pub decode_string : List ℕ → Option (List ℕ)
decode_string [] = some []
decode_string (h ∷ []) = none
decode_string (h ∷ l ∷ s) =
    let rest = decode_string s in
    elim (hex_value h) [
      | none ↦ none
      | some x ↦ elim (hex_value l) [
        | none ↦ none
        | some y ↦ elim rest [ none ↦ none | some bs ↦ some ((x * 16 + y) ∷ bs) ]
      ]
    ]

-- What group `i` appends: the first three are little-endian.
unfoldable pub arrange : ℕ → List ℕ → List ℕ
arrange i buf =
    if i == 0
    then get_or buf 3 0 ∷ get_or buf 2 0 ∷ get_or buf 1 0 ∷ get_or buf 0 0 ∷ []
    else if i == 1 || i == 2
    then get_or buf 1 0 ∷ get_or buf 0 0 ∷ []
    else buf

unfoldable pub assemble : ℕ → List (List ℕ) → List ℕ → List ℕ
assemble i [] guid = guid
assemble i (b ∷ m) guid = elim (decode_string b) [
  | none ↦ replicate 16 0
  | some buf ↦ assemble (i + 1) m (guid ++ arrange i buf)
]

-- GUID.Bytes: 16 zero bytes for a text that is no GUID.
unfoldable pub bytes : List ℕ → List ℕ
bytes g = elim (find_submatch g) [ none ↦ replicate 16 0 | some m ↦ assemble 0 m [] ]

unfoldable pub hex_digit : ℕ → ℕ
hex_digit d = if ltb d 10 then b'0' + d else b'a' + (d - 10)

-- `%0wx` of a number below 16 ^ w.
unfoldable pub hex_pad : ℕ → ℕ → List ℕ
hex_pad zero v = []
hex_pad (suc w) v = hex_digit (v / 16 ^ w % 16) ∷ hex_pad w v

-- `%x` of a byte slice.
unfoldable pub hex_bytes : List ℕ → List ℕ
hex_bytes [] = []
hex_bytes (b ∷ bs) = hex_pad 2 b ++ hex_bytes bs

-- ConfigurationTable.RegistryFormat of the 16 bytes of a GUID.
unfoldable pub registry_format : List ℕ → List ℕ
registry_format guid =
    hex_pad 8 (le_value (take 4 guid))
    ++ b'-'
      ∷ (hex_pad 4 (le_value (take 2 (drop 4 guid)))
          ++ b'-'
            ∷ (hex_pad 4 (le_value (take 2 (drop 6 guid)))
                ++ b'-' ∷ (hex_bytes (take 2 (drop 8 guid)) ++ b'-' ∷ hex_bytes (drop 10 guid))))
