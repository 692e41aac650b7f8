-- ===== src/Graphics/Highest.antt =====
-- Which mode Init of pkg/uefi/graphics_output_protocol.go sets.
use uki_stub.Common.{
  ℕ, zero, suc, ◌+◌, ◌≤◌, ◌≡◌, refl, ◌∙◌, ◌⊎◌, inl, inr, Option, none, some, List, [], ◌∷◌, arith,
  ltb, Bool-cases, get_or, All,
}
use uki_stub.Services.System.{ModeInformation}
use uki_stub.Graphics.{Best, pixel_count, better, no_mode, init_loop, init_mode}

abbrev pub IsAtMost : ℕ → Option ModeInformation → Type 0
IsAtMost n none = Unit {0}
IsAtMost n (some info) = pixel_count info ≤ n

better_le : (i : ℕ) (a : Option ModeInformation) (b : Best) → b.pixels ≤ (better i a b).pixels
unfolding better
better_le i none b = omega arith
better_le i (some info) b = ground arith

better-IsAtMost :
    (i n : ℕ) (a : Option ModeInformation) (b : Best) → (better i a b).pixels ≤ n → IsAtMost n a
unfolding better
better-IsAtMost i n none b h = tt
better-IsAtMost i n (some info) b h = ground (arith, h)

-- The mode is answered for with this information, which has as many pixels.
abbrev pub IsAnswer : List (Option ModeInformation) → ℕ → Best → Type 0
IsAnswer answers i b =
    (k : ℕ) × (b.mode ≡ i + k)
    × (get_or answers k none ≡ some b.info)
    × (pixel_count b.info ≡ b.pixels)

module _ {W : Type 0} (query : ℕ → W → Option ModeInformation × W) (set_mode : ℕ → W → W) where
  -- What the firmware answers for the `n` modes from `i` on.
  unfoldable pub answers : ℕ → ℕ → W → List (Option ModeInformation)
  answers zero i w = []
  answers (suc n) i w = let r = query i w in r.0 ∷ answers n (i + 1) r.1

  pub init_loop_le :
      (n i : ℕ) (b : Best) (w : W)
      → (b.pixels ≤ (init_loop query set_mode n i b w).0.pixels)
        × All (IsAtMost (init_loop query set_mode n i b w).0.pixels) (answers n i w)
  unfolding init_loop answers
  init_loop_le zero i b w = (omega arith, tt)
  init_loop_le (suc n) i b w =
      let r = query i w in
      let (le, all) = init_loop_le n (i + 1) (better i r.0 b) r.1 in
      (omega (arith, le, better_le i r.0 b), (better-IsAtMost i _ r.0 b le, all))

  better-cases :
      (i : ℕ) (a : Option ModeInformation) (b : Best)
      → (better i a b ≡ b)
        ⊎ (((better i a b).mode ≡ i)
            × (a ≡ some (better i a b).info)
            × (pixel_count (better i a b).info ≡ (better i a b).pixels))
  unfolding better
  better-cases i none b = inl refl
  better-cases i (some info) b = elim (Bool-cases (ltb b.pixels (pixel_count info))) [
    | inl more ↦ inr (rw more (refl, refl, refl))
    | inr less ↦ inl (rw less refl)
  ]

  pub init_loop-cases :
      (n i : ℕ) (b : Best) (w : W)
      → ((init_loop query set_mode n i b w).0 ≡ b)
        ⊎ IsAnswer (answers n i w) i (init_loop query set_mode n i b w).0
  unfolding init_loop answers
  init_loop-cases zero i b w = inl refl
  init_loop-cases (suc n) i b w =
      let r = query i w in
      elim (init_loop-cases n (i + 1) (better i r.0 b) r.1) [
        | inr (k, mode, found, count) ↦ inr (suc k, omega (arith, mode), found, count)
        | inl same ↦ elim (better-cases i r.0 b) [
          | inl kept ↦ inl (same ∙ kept)
          | inr (mode, answer, count) ↦
              inr (0, rw same (omega (arith, mode)), rw same answer, rw same count)
        ]
      ]

  -- Init sets the mode that it reports: one that the firmware answered for, with the most pixels,
  -- counted in uint32, of all modes answered for, or mode 0 with empty information.
  pub init_mode_highest :
      (max_mode : ℕ) (w : W)
      → (b : Best) × (w' : W) × (init_mode query set_mode max_mode w ≡ (b.info, set_mode b.mode w'))
        × All (IsAtMost b.pixels) (answers max_mode 0 w)
        × ((b ≡ no_mode) ⊎ IsAnswer (answers max_mode 0 w) 0 b)
  unfolding init_mode
  init_mode_highest max_mode w =
      let r = init_loop query set_mode max_mode 0 no_mode w in
      (r.0, r.1, refl, (init_loop_le max_mode 0 no_mode w).1, init_loop-cases max_mode 0 no_mode w)
