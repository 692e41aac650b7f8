-- ===== src/Uefi/DebugLine.antt =====
-- What DebugPrint of pkg/uefi/util.go hands to OutputString.
use native.Mathlib.Nat.{pow-suc, div-div-eq-div-mul}
use uki_stub.Common.{
  ℕ, zero, suc, ◌+◌, ◌*◌, ◌/◌, ◌%◌, ◌^◌, ◌<◌, ◌≤◌, ◌≡◌, ◌≢◌, refl, sym, ap, ◌∙◌, Option, none, some,
  List, [], ◌∷◌, ◌++◌, append_assoc, arith, length, length-append, drop, length-drop, All,
  All-append, ltb, ok, false,
}
use uki_stub.Firmware.{Firmware, buffer, ◌>>=◌, return}
use uki_stub.Guid.{hex_value, hex_digit, hex_pad}
use uki_stub.Guid.RoundTrip.{hex_value-hex_digit}
use uki_stub.Utf16.{unit_bytes, until_nul}
use uki_stub.Utf16.RoundTrip.{until_nul-append}
use uki_stub.Uefi.{field}
use uki_stub.Uefi.TextOutput.{output_string}
use uki_stub.Uefi.Debug.{debug_line, debug_print}

-- The number that hexadecimal digits spell, behind the one that is read.
unfoldable pub read_hex : ℕ → List ℕ → Option ℕ
read_hex acc [] = some acc
read_hex acc (c ∷ cs) = elim (hex_value c) [ none ↦ none | some d ↦ read_hex (acc * 16 + d) cs ]

read_hex-digit :
    (acc d : ℕ) (cs : List ℕ)
    → d < 16
    → read_hex acc (hex_digit d ∷ cs) ≡ read_hex (acc * 16 + d) cs
unfolding read_hex
read_hex-digit acc d cs h = rw (hex_value-hex_digit d h, read_hex) refl

read_hex-hex_pad : (w v : ℕ) → read_hex (v / 16 ^ w) (hex_pad w v) ≡ some v
unfolding read_hex hex_pad
read_hex-hex_pad zero v = ap some (omega arith)
read_hex-hex_pad (suc w) v =
    let q = v / 16 ^ w in
    let higher : v / 16 ^ suc w ≡ q / 16 =
      ap (λ k. v / k) (pow-suc 16 w) ∙ sym (div-div-eq-div-mul v (16 ^ w) 16) in
    let next : v / 16 ^ suc w * 16 + q % 16 ≡ q = rw higher (omega arith) in
    read_hex-digit (v / 16 ^ suc w) (q % 16) (hex_pad w v) (omega arith)
    ∙ ap (λ n. read_hex n (hex_pad w v)) next
    ∙ read_hex-hex_pad w v

length-hex_pad : (w v : ℕ) → length (hex_pad w v) ≡ w
unfolding hex_pad
length-hex_pad zero v = refl
length-hex_pad (suc w) v = ap suc (length-hex_pad w v)

hex_pad-ne-nul : (w v : ℕ) → All (λ (u : ℕ). u ≢ 0) (hex_pad w v)
unfolding hex_pad hex_digit
hex_pad-ne-nul zero v = tt
hex_pad-ne-nul (suc w) v = (ground arith, hex_pad-ne-nul w v)

-- The units in front of the NUL: the text, a colon, the digits and the end of the line.
abbrev pub shown : List ℕ → ℕ → List ℕ
shown text val = text ++ 0x3a ∷ (hex_pad 16 val ++ 0x0d ∷ 0x0a ∷ [])

shown-debug_line : (text : List ℕ) (val : ℕ) → debug_line text val ≡ shown text val ++ 0 ∷ []
unfolding debug_line hex_pad
shown-debug_line text val =
    sym (append_assoc text (0x3a ∷ (hex_pad 16 val ++ 0x0d ∷ 0x0a ∷ [])) (0 ∷ []))

length-debug_line : (text : List ℕ) (val : ℕ) → length (debug_line text val) ≡ length text + 20
unfolding debug_line hex_pad
length-debug_line text val = length-append text (0x3a ∷ (hex_pad 16 val ++ 0x0d ∷ 0x0a ∷ 0 ∷ []))

shown-ne-nul :
    (text : List ℕ) (val : ℕ)
    → All (λ (u : ℕ). u ≢ 0) text
    → All (λ (u : ℕ). u ≢ 0) (shown text val)
shown-ne-nul text val plain =
    let line_end : All (λ (u : ℕ). u ≢ 0) (0x0d ∷ 0x0a ∷ []) = (omega arith, (omega arith, tt)) in
    let digits =
      All-append (λ (u : ℕ). u ≢ 0) (hex_pad 16 val) (0x0d ∷ 0x0a ∷ []) (hex_pad-ne-nul 16 val)
        line_end in
    All-append (λ (u : ℕ). u ≢ 0) text (0x3a ∷ (hex_pad 16 val ++ 0x0d ∷ 0x0a ∷ [])) plain
      (omega arith, digits)

module _ {W : Type 0} (fw : Firmware W) (st : ℕ) where
  -- For a text of at most 236 units without NUL, a number of 64 bits, and its buffer of 256 units,
  -- DebugPrint hands OutputString of ConOut a buffer of the same length, which it keeps: in front of the
  -- first NUL stand the text, a colon, 16 digits that read back as the number, and the end of the line.
  pub debug_print-shown :
      (text : List ℕ) (val : ℕ) (print_buf : List ℕ) (con_out : ℕ) (w w1 : W)
      → All (λ (u : ℕ). u ≢ 0) text
      → length text ≤ 236
      → val < 2 ^ 64
      → length print_buf ≡ 256
      → field fw st 64 w ≡ (ok con_out, w1)
      → (buf : List ℕ) × (debug_print fw st text val print_buf w
          ≡ (output_string fw con_out (buffer (unit_bytes buf)) >>= (λ _. return buf)) w1)
        × (length buf ≡ 256)
        × (until_nul buf ≡ shown text val)
        × (read_hex 0 (hex_pad 16 val) ≡ some val)
  unfolding debug_print
  debug_print-shown text val print_buf con_out w w1 plain short small size found =
      let line = debug_line text val in
      let long = length-debug_line text val in
      let rest = drop (length line) print_buf in
      let whole : line ++ rest ≡ shown text val ++ 0 ∷ rest =
        ap (λ l. l ++ rest) (shown-debug_line text val)
        ∙ append_assoc (shown text val) (0 ∷ []) rest in
      let fits : ltb (length print_buf) (length line) ≡ false = ground (arith, size, long, short) in
      let written : debug_print fw st text val print_buf w
          ≡ (output_string fw con_out (buffer (unit_bytes (line ++ rest)))
                >>= (λ _. return (line ++ rest)))
              w1 =
        ground (arith, fits, found) in
      (
        line ++ rest,
        written,
        omega (
          arith,
          length-append line rest,
          length-drop (length line) print_buf,
          long,
          size,
          short,
        ),
        ap until_nul whole ∙ until_nul-append (shown text val) rest (shown-ne-nul text val plain),
        ap (λ n. read_hex n (hex_pad 16 val)) (omega (arith, small)) ∙ read_hex-hex_pad 16 val,
      )
