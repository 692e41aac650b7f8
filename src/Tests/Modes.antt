-- ===== src/Tests/Modes.antt =====
-- Init of the graphics output protocol on a firmware with three modes.
use uki_stub.Common.{
  ℕ, suc, ◌≡◌, refl, ◌⊎◌, some, List, [], ◌∷◌, All, ok, err, region_error, ◌==◌, if◌then◌else◌,
  arith,
}
use uki_stub.Wire.{le_bytes, marshal, fields}
use uki_stub.Firmware.{Firmware, Arg, value}
use uki_stub.Graphics.{Best, better, no_mode}
use uki_stub.Graphics.Highest.{IsAtMost, IsAnswer, answers}
use uki_stub.Graphics.Init.{init, rounds, round, max_mode, half_word, information}
use uki_stub.Graphics.Machine.{answer, set, reply, init_highest}
use uki_stub.Services.System.{ModeInformation, mode_information_layout}
use uki_stub.Uefi.{word, field}
use uki_stub.Uefi.GraphicsOutput.{query_mode, set_mode}

-- What QueryMode leaves for a mode: one struct for the first and one for the others.
abbrev found_for : List Arg → ℕ
found_for (_ ∷ value i ∷ _) = if i == 0 then 8192 else 12288
found_for _ = 8192

-- The protocol is at 32 and its mode struct at 4096.
abbrev memory : ℕ → ℕ → List ℕ
memory addr size =
    if addr == 8192
    then marshal mode_information_layout (0 ∷ 640 ∷ 480 ∷ [])
    else if addr == 12288
    then marshal mode_information_layout (0 ∷ 800 ∷ 600 ∷ [])
    else if addr == 4096
    then le_bytes size 3
    else le_bytes size 4096

abbrev three_modes : Firmware ℕ
three_modes = record {
  call =
      λ q calls. (record { status = 0; refs = 36 ∷ found_for q.args ∷ []; bufs = [] }, suc calls);
  region = λ addr size count calls. err region_error;
  load = λ addr size calls. memory addr size;
  store = λ addr bs calls. calls;
}

abbrev mode_800 : ModeInformation
mode_800 = record {
  version = 0;
  horizontal_resolution = 800;
  vertical_resolution = 600;
  pixel_format = 0;
  red_mask = 0;
  green_mask = 0;
  blue_mask = 0;
  reserved_mask = 0;
  pixels_per_scan_line = 0;
}

-- Three calls of QueryMode and one of SetMode.
init-three_modes : init three_modes 32 5 77 0 ≡ (ok (some mode_800), 4)
unfolding init rounds max_mode field le_bytes half_word round query_mode set_mode information fields
    marshal better
init-three_modes = refl

init_highest_example :
    (b : Best) × (w' : ℕ × ℕ) × (init three_modes 32 5 77 0
      ≡ (ok (some b.info), (set three_modes 32 b.mode w').1))
    × All (IsAtMost b.pixels) (answers (answer three_modes 32) (set three_modes 32) 3 0 (77, 0))
    × ((b ≡ no_mode)
        ⊎ IsAnswer (answers (answer three_modes 32) (set three_modes 32) 3 0 (77, 0)) 0 b)
init_highest_example =
    init_highest three_modes 32 3 5 77 0 (omega arith) (omega arith)
      (λ w. unfold word half_word le_bytes in (omega arith, refl))
      (λ i info w pointed. unfold reply in ground arith) (omega arith) (omega arith)
