-- ===== src/Utf16/RoundTrip.antt =====
-- What the conversions keep.
use uki_stub.Common.{
  ℕ, suc, ◌+◌, ◌-◌, ◌*◌, ◌/◌, ◌%◌, ◌≤◌, ◌<◌, ◌≡◌, ◌≢◌, ◌⊎◌, ◌↔◌, refl, ap, arith, List, [], ◌∷◌,
  ◌++◌, length, length-append, All, append_assoc, map,
}
use uki_stub.Utf16.{
  encode_rune, encode, decode, unit_bytes, to_utf16, string_to_utf16, utf16_ptr_to_string,
  until_nul, utf16_to_string,
}

-- A Unicode scalar value, as `[]rune(s)` yields them.
abbrev pub IsScalar : ℕ → Type 0
IsScalar r = (r < 0xd800) ⊎ ((0xe000 ≤ r) × (r ≤ 0x10ffff))

abbrev pub IsBasic : ℕ → Type 0
IsBasic r = r < 0x10000

-- The 16-bit units that the bytes of a buffer hold.
unfoldable pub units : List ℕ → List ℕ
units [] = []
units (lo ∷ []) = []
units (lo ∷ hi ∷ bs) = (lo + 256 * hi) ∷ units bs

decode-cons_basic : (r : ℕ) (us : List ℕ) → IsScalar r → IsBasic r → decode (r ∷ us) ≡ r ∷ decode us
unfolding decode
decode-cons_basic r [] s h = ground arith
decode-cons_basic r (v ∷ us) s h = ground arith

decode-cons_pair :
    (r : ℕ) (us : List ℕ)
    → IsScalar r
    → 0x10000 ≤ r
    → decode ((0xd800 + (r - 0x10000) / 0x400) ∷ (0xdc00 + (r - 0x10000) % 0x400) ∷ us)
      ≡ r ∷ decode us
unfolding decode
decode-cons_pair r us s h = ground arith

decode-encode_rune :
    (r : ℕ) (us : List ℕ) → IsScalar r → decode (encode_rune r ++ us) ≡ r ∷ decode us
unfolding encode_rune
decode-encode_rune r us s = ground (arith, decode-cons_basic r us s, decode-cons_pair r us s)

-- Decoding an encoded text gives the text.
pub decode-encode : (rs us : List ℕ) → All IsScalar rs → decode (encode rs ++ us) ≡ rs ++ decode us
unfolding encode
decode-encode [] us h = refl
decode-encode (r ∷ rs) us (hr, h) =
    rw (append_assoc, decode-encode_rune r _ hr)
      (ap (λ (l : List ℕ). r ∷ l) (decode-encode rs us h))

pub units-unit_bytes : (us bs : List ℕ) → units (unit_bytes us ++ bs) ≡ us ++ units bs
unfolding units unit_bytes
units-unit_bytes [] bs = refl
units-unit_bytes (u ∷ us) bs = ground (arith, units-unit_bytes us bs)

-- The buffer that toUTF16 builds holds the text followed by one 16-bit NUL, for a text of Unicode
-- scalar values.
pub decode-to_utf16 : (rs : List ℕ) → All IsScalar rs → decode (units (to_utf16 rs)) ≡ rs ++ 0 ∷ []
unfolding to_utf16
decode-to_utf16 rs h =
    rw (units-unit_bytes (encode rs) (0 ∷ 0 ∷ []), decode-encode rs (units (0 ∷ 0 ∷ [])) h)
      (unfold units decode in refl)

length-unit_bytes : (us : List ℕ) → length (unit_bytes us) ≡ 2 * length us
unfolding unit_bytes
length-unit_bytes [] = omega arith
length-unit_bytes (u ∷ us) = omega (arith, length-unit_bytes us)

pub length-to_utf16 : (rs : List ℕ) → length (to_utf16 rs) ≡ 2 * length (encode rs) + 2
unfolding to_utf16
length-to_utf16 rs =
    omega
      (arith, length-append (unit_bytes (encode rs)) (0 ∷ 0 ∷ []), length-unit_bytes (encode rs))

encode_rune-basic : (r : ℕ) → IsScalar r → IsBasic r → encode_rune r ≡ r ∷ []
unfolding encode_rune
encode_rune-basic r s h = ground arith

length-encode_rune : (r : ℕ) → 1 ≤ length (encode_rune r)
unfolding encode_rune
length-encode_rune r = ground arith

pub length-encode : (rs : List ℕ) → length rs ≤ length (encode rs)
unfolding encode
length-encode [] = omega arith
length-encode (r ∷ rs) =
    omega (arith, length-append (encode_rune r) (encode rs), length-encode_rune r, length-encode rs)

length-map {ℓ κ} :
    {A : Type ℓ} {B : Type κ} (f : A → B) (xs : List A) → length (map f xs) ≡ length xs
length-map f [] = refl
length-map f (x ∷ xs) = ap suc (length-map f xs)

length-encode-IsBasic :
    (rs : List ℕ) → All IsScalar rs → length (encode rs) ≡ length rs → All IsBasic rs
unfolding encode encode_rune
length-encode-IsBasic [] h e = tt
length-encode-IsBasic (r ∷ rs) (hr, h) e =
    ground (
      arith,
      length-append (encode_rune r) (encode rs),
      length-encode rs,
      length-encode-IsBasic rs h,
    )

map-encode_basic :
    (rs : List ℕ) → All IsScalar rs → All IsBasic rs → map (λ r. r % 65536) rs ≡ encode rs
unfolding encode
map-encode_basic [] h b = refl
map-encode_basic (r ∷ rs) (hr, h) (br, b) =
    ground (arith, encode_rune-basic r hr br, map-encode_basic rs h b)

length-append_nul : (us vs : List ℕ) → us ++ 0 ∷ [] ≡ vs ++ 0 ∷ [] → length us ≡ length vs
length-append_nul us vs e =
    omega (arith, ap length e, length-append us (0 ∷ []), length-append vs (0 ∷ []))

-- StringToUTF16 is UTF-16 with a NUL at the end exactly on the texts of the basic plane: a
-- character above it is cut to 16 bits where UTF-16 has a surrogate pair.
pub string_to_utf16_iff :
    (rs : List ℕ) → All IsScalar rs → (string_to_utf16 rs ≡ encode rs ++ 0 ∷ []) ↔ All IsBasic rs
unfolding string_to_utf16
string_to_utf16_iff rs h = (
  λ e. length-encode-IsBasic rs h (
      omega (
        arith,
        length-append_nul (map (λ (r : ℕ). r % 65536) rs) (encode rs) e,
        length-map (λ (r : ℕ). r % 65536) rs,
      )),
  λ b. rw (map-encode_basic rs h b),
)

pub until_nul-append :
    (us rest : List ℕ) → All (λ (u : ℕ). u ≢ 0) us → until_nul (us ++ 0 ∷ rest) ≡ us
unfolding until_nul
until_nul-append [] rest h = refl
until_nul-append (u ∷ us) rest (hu, h) = ground (arith, until_nul-append us rest h)

map-basic : (rs : List ℕ) → All IsBasic rs → map (λ r. r % 65536) rs ≡ rs
map-basic [] b = refl
map-basic (r ∷ rs) (br, b) = ground (arith, map-basic rs b)

decode-basic : (rs : List ℕ) → All IsScalar rs → All IsBasic rs → decode rs ≡ rs
unfolding decode
decode-basic [] h b = refl
decode-basic (r ∷ rs) (hr, h) (br, b) = cc (decode-cons_basic r rs hr br, decode-basic rs h b)

-- UTF16PtrToString reads back from memory the text that StringToUTF16 wrote there, whatever follows
-- its NUL, for texts of the basic plane without a NUL.
utf16_ptr_to_string-string_to_utf16 :
    (rs rest : List ℕ)
    → All IsScalar rs
    → All IsBasic rs
    → All (λ (r : ℕ). r ≢ 0) rs
    → utf16_ptr_to_string (string_to_utf16 rs ++ rest) ≡ rs
unfolding utf16_ptr_to_string string_to_utf16
utf16_ptr_to_string-string_to_utf16 rs rest h b z =
    rw (append_assoc, map-basic rs b, until_nul-append rs rest z)
      (unfold utf16_to_string in decode-basic rs h b)
