-- ===== src/Guid/RoundTrip.antt =====
-- A GUID's text names its bytes.
use uki_stub.Common.{
  ℕ, zero, suc, ◌+◌, ◌*◌, ◌/◌, ◌%◌, ◌^◌, ◌<◌, ◌≡◌, refl, ◌∙◌, some, List, [], ◌∷◌, ◌++◌, append-nil,
  arith, length, All,
}
use uki_stub.Wire.{le_value}
use uki_stub.Wire.RoundTrip.{IsByte}
use uki_stub.Guid.{
  codes, hex_value, take_group, take_dashed, take_last, find_submatch, decode_string, assemble,
  arrange, bytes, hex_digit, hex_pad, hex_bytes, registry_format,
}

sample :
    bytes (codes "5B1b31a1-9562-11d2-8e3f-00a0c969723b")
    ≡ 0xa1 ∷ 0x31 ∷ 0x1b ∷ 0x5b ∷ 0x62 ∷ 0x95 ∷ 0xd2 ∷ 0x11 ∷ 0x8e ∷ 0x3f ∷ 0x00 ∷ 0xa0 ∷ 0xc9
      ∷ 0x69 ∷ 0x72 ∷ 0x3b ∷ []
unfolding bytes find_submatch assemble take_dashed take_last take_group decode_string arrange
    hex_value
sample = refl

pub hex_value-hex_digit : (d : ℕ) → d < 16 → hex_value (hex_digit d) ≡ some d
unfolding hex_value hex_digit
hex_value-hex_digit d h = ground arith

take_group-cons :
    (n d : ℕ) (s ds t : List ℕ)
    → d < 16
    → take_group n s ≡ some (ds, t)
    → take_group (suc n) (hex_digit d ∷ s) ≡ some (hex_digit d ∷ ds, t)
unfolding take_group
take_group-cons n d s ds t h e = ground (arith, hex_value-hex_digit d h)

take_group-hex_pad :
    (w v : ℕ) (t : List ℕ) → take_group w (hex_pad w v ++ t) ≡ some (hex_pad w v, t)
unfolding hex_pad
take_group-hex_pad zero v t = unfold take_group in refl
take_group-hex_pad (suc w) v t =
    take_group-cons w (v / 16 ^ w % 16) _ _ t (omega arith) (take_group-hex_pad w v t)

decode_string-cons :
    (a b : ℕ) (s bs : List ℕ)
    → a < 16
    → b < 16
    → decode_string s ≡ some bs
    → decode_string (hex_digit a ∷ hex_digit b ∷ s) ≡ some ((a * 16 + b) ∷ bs)
unfolding decode_string
decode_string-cons a b s bs ha hb e =
    ground (arith, hex_value-hex_digit a ha, hex_value-hex_digit b hb)

double : ℕ → ℕ
double zero = zero
double (suc n) = suc (suc (double n))

hex_pad-two : (b : ℕ) → hex_pad 2 b ≡ hex_digit (b / 16 % 16) ∷ hex_digit (b % 16) ∷ []
unfolding hex_pad
hex_pad-two b = ground arith

take_group-hex_bytes :
    (bs t : List ℕ) → take_group (double (length bs)) (hex_bytes bs ++ t) ≡ some (hex_bytes bs, t)
unfolding double hex_bytes
take_group-hex_bytes [] t = unfold take_group in refl
take_group-hex_bytes (b ∷ bs) t = rw (hex_pad-two b) (
    take_group-cons _ (b / 16 % 16) _ _ t (omega arith)
      (take_group-cons _ (b % 16) _ _ t (omega arith) (take_group-hex_bytes bs t)))

decode_string-hex_bytes : (bs : List ℕ) → All IsByte bs → decode_string (hex_bytes bs) ≡ some bs
unfolding hex_bytes
decode_string-hex_bytes [] h = unfold decode_string in refl
decode_string-hex_bytes (b ∷ bs) (hb, h) =
    let byte : b / 16 % 16 * 16 + b % 16 ≡ b = omega arith in
    rw (hex_pad-two b) (
      decode_string-cons (b / 16 % 16) (b % 16) _ bs (omega arith) (omega arith)
        (decode_string-hex_bytes bs h)
      ∙ rw byte)

take_dashed-hex_bytes :
    (bs t : List ℕ)
    → take_dashed (double (length bs)) (hex_bytes bs ++ b'-' ∷ t) ≡ some (hex_bytes bs, t)
unfolding take_dashed
take_dashed-hex_bytes bs t = rw (take_group-hex_bytes bs (b'-' ∷ t), take_dashed)

take_last-hex_bytes :
    (bs : List ℕ) → take_last (double (length bs)) (hex_bytes bs) ≡ some (hex_bytes bs)
unfolding take_last
take_last-hex_bytes bs =
    let whole : take_group (double (length bs)) (hex_bytes bs) ≡ some (hex_bytes bs, []) =
      rw append-nil at (take_group-hex_bytes bs []) in
    rw (whole, take_last)

-- The little-endian number of four, or two, bytes is printed as these bytes in reverse.
hex_pad_four_bytes :
    (a b c d : ℕ)
    → a < 256
    → b < 256
    → c < 256
    → d < 256
    → hex_pad 8 (le_value (a ∷ b ∷ c ∷ d ∷ [])) ≡ hex_bytes (d ∷ c ∷ b ∷ a ∷ [])
unfolding hex_pad hex_bytes le_value
hex_pad_four_bytes a b c d ha hb hc hd =
    let v = a + 256 * (b + 256 * (c + 256 * (d + 256 * 0))) in
    let e7 : v / 16 ^ 7 % 16 ≡ d / 16 ^ 1 % 16 = omega arith in
    let e6 : v / 16 ^ 6 % 16 ≡ d / 16 ^ 0 % 16 = omega arith in
    let e5 : v / 16 ^ 5 % 16 ≡ c / 16 ^ 1 % 16 = omega arith in
    let e4 : v / 16 ^ 4 % 16 ≡ c / 16 ^ 0 % 16 = omega arith in
    let e3 : v / 16 ^ 3 % 16 ≡ b / 16 ^ 1 % 16 = omega arith in
    let e2 : v / 16 ^ 2 % 16 ≡ b / 16 ^ 0 % 16 = omega arith in
    let e1 : v / 16 ^ 1 % 16 ≡ a / 16 ^ 1 % 16 = omega arith in
    let e0 : v / 16 ^ 0 % 16 ≡ a / 16 ^ 0 % 16 = omega arith in cc

hex_pad_two_bytes :
    (a b : ℕ) → a < 256 → b < 256 → hex_pad 4 (le_value (a ∷ b ∷ [])) ≡ hex_bytes (b ∷ a ∷ [])
unfolding hex_pad hex_bytes le_value
hex_pad_two_bytes a b ha hb = ground arith

take_dashed_at :
    (n : ℕ) (bs t : List ℕ)
    → double (length bs) ≡ n
    → take_dashed n (hex_bytes bs ++ b'-' ∷ t) ≡ some (hex_bytes bs, t)
take_dashed_at n bs t e = rw (← e) (take_dashed-hex_bytes bs t)

take_last_at :
    (n : ℕ) (bs : List ℕ)
    → double (length bs) ≡ n
    → take_last n (hex_bytes bs) ≡ some (hex_bytes bs)
take_last_at n bs e = rw (← e) (take_last-hex_bytes bs)

-- Five groups of bytes in hexadecimal, as a GUID's text.
dashed : List ℕ → List ℕ → List ℕ → List ℕ → List ℕ → List ℕ
dashed a b c d e =
    hex_bytes a
    ++ b'-' ∷ (hex_bytes b ++ b'-' ∷ (hex_bytes c ++ b'-' ∷ (hex_bytes d ++ b'-' ∷ hex_bytes e)))

find_submatch-dashed :
    (a b c d e : List ℕ)
    → double (length a) ≡ 8
    → double (length b) ≡ 4
    → double (length c) ≡ 4
    → double (length d) ≡ 4
    → double (length e) ≡ 12
    → find_submatch (dashed a b c d e)
      ≡ some (hex_bytes a ∷ hex_bytes b ∷ hex_bytes c ∷ hex_bytes d ∷ hex_bytes e ∷ [])
unfolding dashed find_submatch
find_submatch-dashed a b c d e ha hb hc hd he = rw (
  take_dashed_at 8 a _ ha,
  take_dashed_at 4 b _ hb,
  take_dashed_at 4 c _ hc,
  take_dashed_at 4 d _ hd,
  take_last_at 12 e he,
  find_submatch,
)

assemble-cons :
    (i : ℕ) (b buf : List ℕ) (m : List (List ℕ)) (guid : List ℕ)
    → decode_string b ≡ some buf
    → assemble i (b ∷ m) guid ≡ assemble (i + 1) m (guid ++ arrange i buf)
unfolding assemble
assemble-cons i b buf m guid e = rw (e, assemble)

assemble-hex_bytes :
    (a b c d e : List ℕ)
    → All IsByte a
    → All IsByte b
    → All IsByte c
    → All IsByte d
    → All IsByte e
    → assemble 0 (hex_bytes a ∷ hex_bytes b ∷ hex_bytes c ∷ hex_bytes d ∷ hex_bytes e ∷ []) []
      ≡ (((arrange 0 a ++ arrange 1 b) ++ arrange 2 c) ++ d) ++ e
unfolding assemble arrange
assemble-hex_bytes a b c d e ha hb hc hd he = rw (
  assemble-cons _ _ _ _ _ (decode_string-hex_bytes a ha),
  assemble-cons _ _ _ _ _ (decode_string-hex_bytes b hb),
  assemble-cons _ _ _ _ _ (decode_string-hex_bytes c hc),
  assemble-cons _ _ _ _ _ (decode_string-hex_bytes d hd),
  assemble-cons _ _ _ _ _ (decode_string-hex_bytes e he),
)

bytes-dashed :
    (a b c d e : List ℕ)
    → All IsByte a
    → All IsByte b
    → All IsByte c
    → All IsByte d
    → All IsByte e
    → find_submatch (dashed a b c d e)
      ≡ some (hex_bytes a ∷ hex_bytes b ∷ hex_bytes c ∷ hex_bytes d ∷ hex_bytes e ∷ [])
    → bytes (dashed a b c d e) ≡ (((arrange 0 a ++ arrange 1 b) ++ arrange 2 c) ++ d) ++ e
unfolding bytes
bytes-dashed a b c d e ha hb hc hd he found =
    rw (found, bytes) (assemble-hex_bytes a b c d e ha hb hc hd he)

-- The text of a GUID's bytes is read back as these bytes, for any 16 bytes.
pub bytes-registry_format :
    (guid : List ℕ) → All IsByte guid → length guid ≡ 16 → bytes (registry_format guid) ≡ guid
unfolding double
bytes-registry_format (a ∷ b ∷ c ∷ d ∷ e ∷ f ∷ g ∷ h ∷ i ∷ j ∷ rest)
      (ha, (hb, (hc, (hd, (he, (hf, (hg, (hh, (hi, (hj, bs)))))))))) len =
    let u = d ∷ c ∷ b ∷ a ∷ [] in
    let v = f ∷ e ∷ [] in
    let w = h ∷ g ∷ [] in
    let x = i ∷ j ∷ [] in
    let text : registry_format (a ∷ b ∷ c ∷ d ∷ e ∷ f ∷ g ∷ h ∷ i ∷ j ∷ rest)
        ≡ dashed u v w x rest =
      unfold registry_format dashed in
      rw (
        hex_pad_four_bytes a b c d ha hb hc hd,
        hex_pad_two_bytes e f he hf,
        hex_pad_two_bytes g h hg hh,
      ) in
    let six : length rest ≡ 6 = omega arith in
    let found = find_submatch-dashed u v w x rest refl refl refl refl (rw six) in
    rw
      (
        text,
        bytes-dashed u v w x rest (hd, (hc, (hb, (ha, tt)))) (hf, (he, tt)) (hh, (hg, tt))
            (hi, (hj, tt)) bs found,
      )
      (unfold arrange in refl)
bytes-registry_format guid bs len = absurd (omega arith)
