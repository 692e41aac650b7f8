-- ===== src/Kernel/Parsing.antt =====
-- What the commands read in a configuration that is written as they expect it.
use uki_stub.Common.{
  ℕ, ◌+◌, ◌-◌, ◌*◌, ◌^◌, ◌≤◌, ◌<◌, ◌≡◌, ◌≢◌, refl, ap, ◌∙◌, false, Option, some, List, [], ◌∷◌,
  ◌++◌, arith, ltb, All, Outcome, ok, ==_ne,
}
use uki_stub.Kernel.{Services, read_config, slice_at, take_parts}
use uki_stub.Kernel.Config.{Signed, cut, split_config, digits, signed, atoi}

abbrev pub IsDigit : ℕ → Type 0
IsDigit c = (0x30 ≤ c) × (c ≤ 0x39)

-- The number that digits spell behind `n`.
abbrev pub value : List ℕ → ℕ → ℕ
value [] n = n
value (c ∷ s) n = value s (n * 10 + (c - 0x30))

cut-line :
    (line rest : List ℕ) → All (λ b. b ≢ 10) line → cut (line ++ 10 ∷ rest) ≡ (line, some rest)
unfolding cut
cut-line [] rest h = refl
cut-line (b ∷ line) rest (hb, h) = ground (arith, cut-line line rest h)

le-value : (s : List ℕ) (n : ℕ) → n ≤ value s n
le-value [] n = omega arith
le-value (c ∷ s) n = omega (arith, le-value s (n * 10 + (c - 0x30)))

digits-value :
    (s : List ℕ) (n : ℕ) → All IsDigit s → value s n < 2 ^ 63 → digits s n ≡ some (value s n)
unfolding digits
digits-value [] n h fits = refl
digits-value (c ∷ s) n (hc, h) fits =
    let next = n * 10 + (c - 0x30) in ground (arith, le-value s next, digits-value s next h fits)

not_feed : (s : List ℕ) → All IsDigit s → All (λ b. b ≢ 10) s
not_feed [] h = tt
not_feed (c ∷ s) (hc, h) = (ground arith, not_feed s h)

signed-value :
    (s : List ℕ)
    → s ≢ []
    → All IsDigit s
    → value s 0 < 2 ^ 63
    → signed false s ≡ record { negative = false; size = value s 0 }
unfolding signed
signed-value [] some' h fits = absurd (some' refl)
signed-value (c ∷ s) some' h fits =
    let small : ltb (2 ^ 63 - 1) (value (c ∷ s) 0) ≡ false = ground (arith, fits) in
    ground (arith, digits-value (c ∷ s) 0 h fits, small)

atoi-value :
    (s : List ℕ)
    → s ≢ []
    → All IsDigit s
    → value s 0 < 2 ^ 63
    → atoi s ≡ record { negative = false; size = value s 0 }
unfolding atoi
atoi-value [] some' h fits = absurd (some' refl)
atoi-value (c ∷ s) some' ((lo, hi), h) fits =
    rw (==_ne c 0x2d (omega arith), ==_ne c 0x2b (omega arith))
      (signed-value (c ∷ s) some' ((lo, hi), h) fits)

split_config-lines :
    (line second rest : List ℕ)
    → All (λ b. b ≢ 10) line
    → All (λ b. b ≢ 10) second
    → split_config (line ++ 10 ∷ (second ++ 10 ∷ rest)) ≡ (line, some second)
unfolding split_config
split_config-lines line second rest h1 h2 =
    rw (cut-line line (second ++ 10 ∷ rest) h1) (rw (cut-line second rest h2) refl)

take_parts-digits :
    {W R F : Type 0} (api : Services W R F) (w : W) (ds cmdline : List ℕ)
    → ds ≢ []
    → All IsDigit ds
    → value ds 0 < 2 ^ 63
    → take_parts api ds (some cmdline) w ≡ (
      ok (
        record { negative = false; size = value ds 0 },
        api.load 0x30000000 (value ds 0) w,
        cmdline,
      ),
      w,
    )
unfolding take_parts slice_at
take_parts-digits api w ds cmdline some' hd fits =
    let small : ltb (2 ^ 64 - 0x30000000) (value ds 0) ≡ false = ground (arith, fits) in
    rw (atoi-value ds some' hd fits) (rw small refl)

-- On a configuration of decimal digits, a command line and anything else, each on its own line, the
-- commands take the bytes of the kernel, as many as the digits say, and the command line. Memory
-- is only read.
pub read_config-lines :
    {W R F : Type 0} (api : Services W R F) (w : W) (ds cmdline rest : List ℕ)
    → api.load 0x20000000 10240 w ≡ ds ++ 10 ∷ (cmdline ++ 10 ∷ rest)
    → ds ≢ []
    → All IsDigit ds
    → All (λ b. b ≢ 10) cmdline
    → value ds 0 < 2 ^ 63
    → read_config api w ≡ (
      ok (
        record { negative = false; size = value ds 0 },
        api.load 0x30000000 (value ds 0) w,
        cmdline,
      ),
      w,
    )
unfolding read_config
read_config-lines api w ds cmdline rest e some' hd hc fits =
    let taken : List ℕ × Option (List ℕ) → Outcome (Signed × List ℕ × List ℕ) × _ =
      λ p. take_parts api (p.0) (p.1) w in
    ap (λ cfg. taken (split_config cfg)) e
    ∙ ap taken (split_config-lines ds cmdline rest (not_feed ds hd) hc)
    ∙ take_parts-digits api w ds cmdline some' hd fits
