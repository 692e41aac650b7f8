-- ===== src/Utf8.antt =====
-- `[]rune(s)` and `utf8.EncodeRune` of the standard library, which the text conversions of
-- pkg/ueficore and pkg/uefi stand on: the bytes of a string and its runes.
use uki_stub.Common.{
  ℕ, zero, suc, ◌+◌, ◌-◌, ◌*◌, ◌/◌, ◌%◌, ◌≤◌, ◌<◌, ◌≡◌, refl, ap, Bool, ◌&&◌, ◌||◌, List, [], ◌∷◌,
  ◌++◌, arith, ltb, leb, ◌==◌, if◌then◌else◌, lt→ltb, get_or, All,
}

abbrev in_range : ℕ → ℕ → ℕ → Bool
in_range lo hi b = leb lo b && leb b hi

abbrev is_continuation : ℕ → Bool
is_continuation b = in_range 0x80 0xbf b

-- The second byte that a lead byte of three or four bytes allows.
unfoldable pub second_ok : ℕ → ℕ → Bool
second_ok lead b =
    if lead == 0xe0
    then in_range 0xa0 0xbf b
    else if lead == 0xed
    then in_range 0x80 0x9f b
    else if lead == 0xf0
    then in_range 0x90 0xbf b
    else if lead == 0xf4
    then in_range 0x80 0x8f b
    else is_continuation b

-- The rune at the front of a byte and those behind it, and how many of these belong to it. An
-- invalid byte is U+FFFD, alone. A byte that is missing reads as 0, which continues nothing.
unfoldable pub first_rune : ℕ → List ℕ → ℕ × ℕ
unfolding second_ok
first_rune a s =
    let b = get_or s 0 0 in
    let c = get_or s 1 0 in
    let d = get_or s 2 0 in
    if ltb a 0x80
    then (a, 0)
    else if in_range 0xc2 0xdf a && is_continuation b
    then ((a - 0xc0) * 64 + (b - 0x80), 1)
    else if in_range 0xe0 0xef a && (second_ok a b && is_continuation c)
    then ((a - 0xe0) * 4096 + (b - 0x80) * 64 + (c - 0x80), 2)
    else if in_range 0xf0 0xf4 a && (second_ok a b && (is_continuation c && is_continuation d))
    then ((a - 0xf0) * 262144 + (b - 0x80) * 4096 + (c - 0x80) * 64 + (d - 0x80), 3)
    else (0xfffd, 0)

-- The first argument counts bytes that belong to a rune already read.
unfoldable pub runes_from : ℕ → List ℕ → List ℕ
runes_from skip [] = []
runes_from (suc skip) (b ∷ s) = runes_from skip s
runes_from zero (b ∷ s) = let r = first_rune b s in (r.0) ∷ runes_from (r.1) s

unfoldable pub runes : List ℕ → List ℕ
unfolding runes_from first_rune
runes s = runes_from 0 s

-- `utf8.EncodeRune`
unfoldable pub encode_rune : ℕ → List ℕ
encode_rune r =
    if ltb r 0x80
    then r ∷ []
    else if ltb r 0x800
    then (0xc0 + r / 64) ∷ (0x80 + r % 64) ∷ []
    else if in_range 0xd800 0xdfff r || ltb 0x10ffff r
    then 0xef ∷ 0xbf ∷ 0xbd ∷ []
    else if ltb r 0x10000
    then (0xe0 + r / 4096) ∷ (0x80 + r / 64 % 64) ∷ (0x80 + r % 64) ∷ []
    else (0xf0 + r / 262144) ∷ (0x80 + r / 4096 % 64) ∷ (0x80 + r / 64 % 64) ∷ (0x80 + r % 64) ∷ []

unfoldable pub encode : List ℕ → List ℕ
unfolding encode_rune
encode [] = []
encode (r ∷ rs) = encode_rune r ++ encode rs

-- ASCII text is its own list of runes.
pub runes-ascii : (s : List ℕ) → All (λ (b : ℕ). b < 0x80) s → runes_from 0 s ≡ s
unfolding runes_from first_rune
runes-ascii [] h = refl
runes-ascii (b ∷ s) (hb, h) = rw (lt→ltb b 0x80 hb) (ap (λ (l : List ℕ). b ∷ l) (runes-ascii s h))

one_byte : (r : ℕ) (s : List ℕ) → r < 0x80 → runes_from 0 (r ∷ s) ≡ r ∷ runes_from 0 s
unfolding runes_from first_rune
one_byte r s h = rw (lt→ltb r 0x80 h)

two_bytes :
    (r : ℕ) (s : List ℕ)
    → 0x80 ≤ r
    → r < 0x800
    → runes_from 0 ((0xc0 + r / 64) ∷ (0x80 + r % 64) ∷ s) ≡ r ∷ runes_from 0 s
unfolding runes_from first_rune
two_bytes r s lo hi = ground arith
