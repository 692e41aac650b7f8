-- ===== src/Graphics/Init.antt =====
-- Init of pkg/uefi/graphics_output_protocol.go on the firmware. `p` is the address of the protocol,
-- and `fresh` that of the struct that `new` makes.
use uki_stub.Common.{ℕ, zero, suc, ◌+◌, ◌%◌, ◌^◌, Option, none, some, ok, ltb, ◌==◌, if◌then◌else◌}
use uki_stub.Wire.{le_value, fields}
use uki_stub.Firmware.{Firmware, M, reference, left_in, return, crash, observe, ◌>>=◌}
use uki_stub.Services.System.{ModeInformation, mode_information_of, mode_information_layout}
use uki_stub.Uefi.{field}
use uki_stub.Uefi.GraphicsOutput.{query_mode, set_mode}
use uki_stub.Graphics.{Best, better, no_mode}

-- The variable info, a pointer, and the three that keep the best mode.
pub record Search : Type 0 where
  pub info : ℕ
  pub best : Best

module _ {W : Type 0} (fw : Firmware W) where
  -- The struct of 36 bytes at an address.
  unfoldable pub information : ℕ → W → ModeInformation
  information a w = mode_information_of (fields mode_information_layout (fw.load a 36 w))

  -- The uint32 at an address.
  unfoldable pub half_word : ℕ → W → ℕ
  half_word a w = le_value (fw.load a 4 w)

  module _ (p : ℕ) where
    -- `p.Mode.MaxMode`
    unfoldable pub max_mode : M W ℕ
    max_mode = do
      mode ← field fw p 24
      if mode == 0 then crash else observe (λ w. ok (half_word mode w))

    -- The body of the loop. The pointer stays in the variable when a mode is skipped.
    unfoldable pub round : ℕ → Search → M W Search
    round i s = do
      r ← query_mode fw p i (reference 0) (reference s.info)
      let info = left_in r 1 s.info
      if r.status == 0
          then (if info == 0
              then crash
              else observe (λ w.
                ok (record { info = info; best = better i (some (information info w)) s.best })))
          else return (record s { info = info })

    -- The loop, on a number of rounds. MaxMode is read again in each.
    unfoldable pub rounds : ℕ → ℕ → Search → M W (Option Best)
    rounds zero i s = return none
    rounds (suc fuel) i s = do
      n ← max_mode
      if ltb i n then (do s ← round i s; rounds fuel ((i + 1) % 2 ^ 32) s) else return (some s.best)

    -- The information of the mode that Init sets; the status of SetMode is dropped.
    unfoldable pub init : ℕ → ℕ → M W (Option ModeInformation)
    init fuel fresh = do
      found ← rounds fuel 0 (record { info = fresh; best = no_mode })
      elim found [
        | none ↦ return none
        | some best ↦ do _ ← set_mode fw p best.mode; return (some best.info)
      ]
