-- ===== src/Utf16.antt =====
-- The two conversions of text to UTF-16: toUTF16 of pkg/ueficore/desc.go, and StringToUTF16,
-- UTF16ToString and UTF16PtrToString of pkg/uefi/util.go, over `unicode/utf16` of the standard
-- library. A Go string is the list of the runes that `[]rune(s)` yields.
pub mod RoundTrip
use uki_stub.Common.{
  ℕ, ◌+◌, ◌-◌, ◌*◌, ◌/◌, ◌%◌, List, [], ◌∷◌, ◌++◌, if◌then◌else◌, ltb, leb, ◌==◌, ◌&&◌, Bool, ◌||◌,
  map, Outcome, ok, panic,
}

abbrev pub replacement : ℕ
replacement = 0xfffd

-- `utf16.AppendRune`: a surrogate pair above the basic plane, U+FFFD for what is no character.
unfoldable pub encode_rune : ℕ → List ℕ
encode_rune r =
    if ltb r 0xd800 || (leb 0xe000 r && ltb r 0x10000)
    then r ∷ []
    else if leb 0x10000 r && leb r 0x10ffff
    then (0xd800 + (r - 0x10000) / 0x400) ∷ (0xdc00 + (r - 0x10000) % 0x400) ∷ []
    else replacement ∷ []

unfoldable pub encode : List ℕ → List ℕ
unfolding encode_rune
encode [] = []
encode (r ∷ rs) = encode_rune r ++ encode rs

abbrev is_high : ℕ → Bool
is_high u = leb 0xd800 u && ltb u 0xdc00

abbrev is_low : ℕ → Bool
is_low u = leb 0xdc00 u && ltb u 0xe000

-- `utf16.Decode`: an unpaired surrogate becomes U+FFFD.
unfoldable pub decode : List ℕ → List ℕ
decode [] = []
decode (u ∷ []) = (if is_high u || is_low u then replacement else u) ∷ []
decode (u ∷ v ∷ us) =
    let pair = decode us in
    let single = decode (v ∷ us) in
    if is_high u && is_low v
    then (0x10000 + (u - 0xd800) * 0x400 + (v - 0xdc00)) ∷ pair
    else (if is_high u || is_low u then replacement else u) ∷ single

-- The loop of toUTF16, low byte first.
unfoldable pub unit_bytes : List ℕ → List ℕ
unit_bytes [] = []
unit_bytes (u ∷ us) = (u % 256) ∷ (u / 256) ∷ unit_bytes us

unfoldable pub to_utf16 : List ℕ → List ℕ
unfolding encode unit_bytes
to_utf16 s = unit_bytes (encode s) ++ 0 ∷ 0 ∷ []

-- `CHAR16(r)` keeps the low 16 bits of each rune.
unfoldable pub string_to_utf16 : List ℕ → List ℕ
string_to_utf16 s = map (λ r. r % 65536) s ++ 0 ∷ []

-- The runes that UTF16PtrLenToString encodes as UTF-8, for the `length` units at the pointer.
unfoldable pub utf16_to_string : List ℕ → List ℕ
unfolding decode
utf16_to_string input = decode input

-- UTF16ToString: `&input[0]` panics on an empty slice.
unfoldable pub utf16_slice_to_string : List ℕ → Outcome (List ℕ)
unfolding utf16_to_string
utf16_slice_to_string [] = panic
utf16_slice_to_string (u ∷ us) = ok (utf16_to_string (u ∷ us))

-- The units of memory before the first 0, which UTF16PtrToString counts.
unfoldable pub until_nul : List ℕ → List ℕ
until_nul [] = []
until_nul (u ∷ us) = if u == 0 then [] else u ∷ until_nul us

unfoldable pub utf16_ptr_to_string : List ℕ → List ℕ
unfolding until_nul utf16_to_string
utf16_ptr_to_string memory = utf16_to_string (until_nul memory)
