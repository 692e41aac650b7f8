-- ===== src/Graphics.antt =====
-- pkg/uefi/graphics_output_protocol.go: the choice of the graphics mode in Init. QueryMode, with
-- the struct that its pointer then points to, and SetMode are calls of the firmware: parameters.
pub mod Highest
pub mod Init
pub mod Machine
-- The four masks of PixelInformation stand one by one in the struct ModeInformation.
use uki_stub.Common.{ℕ, zero, suc, ◌+◌, ◌*◌, ◌%◌, ◌^◌, Option, none, some, ltb, if◌then◌else◌}
use uki_stub.Services.System.{ModeInformation}

-- The variables highestModeInfo, highestMode and pixelMax.
pub record Best : Type 0 where
  pub info : ModeInformation
  pub mode : ℕ
  pub pixels : ℕ

-- `info.HorizontalResolution * info.VerticalResolution`, in uint32.
abbrev pub pixel_count : ModeInformation → ℕ
pixel_count info = info.horizontal_resolution * info.vertical_resolution % 2 ^ 32

-- One round of the loop: a mode that is not answered for is skipped.
unfoldable pub better : ℕ → Option ModeInformation → Best → Best
better i none best = best
better i (some info) best =
    if ltb best.pixels (pixel_count info)
    then record { info = info; mode = i; pixels = pixel_count info }
    else best

abbrev pub no_mode : Best
no_mode = record {
  info = record {
    version = 0;
    horizontal_resolution = 0;
    vertical_resolution = 0;
    pixel_format = 0;
    red_mask = 0;
    green_mask = 0;
    blue_mask = 0;
    reserved_mask = 0;
    pixels_per_scan_line = 0;
  };
  mode = 0;
  pixels = 0;
}

module _ {W : Type 0} (query : ℕ → W → Option ModeInformation × W) (set_mode : ℕ → W → W) where
  -- The loop for the `n` modes from `i` on.
  unfoldable pub init_loop : ℕ → ℕ → Best → W → Best × W
  unfolding better
  init_loop zero i best w = (best, w)
  init_loop (suc n) i best w = let r = query i w in init_loop n (i + 1) (better i r.0 best) r.1

  -- The information of the mode that Init sets, for a maximal mode of `max_mode`.
  unfoldable pub init_mode : ℕ → W → ModeInformation × W
  init_mode max_mode w = let r = init_loop max_mode 0 no_mode w in (r.0.info, set_mode r.0.mode r.1)
