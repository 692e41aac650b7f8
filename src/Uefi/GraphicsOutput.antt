-- ===== src/Uefi/GraphicsOutput.antt =====
-- EFI_GRAPHICS_OUTPUT_PROTOCOL of pkg/uefi/graphics_output_protocol.go.
use uki_stub.Common.{ℕ, [], ◌∷◌}
use uki_stub.Firmware.{Firmware, M, Arg, value, Reply}
use uki_stub.Uefi.{call_method}

module _ {W : Type 0} (fw : Firmware W) (p : ℕ) where
  unfoldable pub query_mode : ℕ → Arg → Arg → M W Reply
  unfolding call_method
  query_mode mode_number size_of_info info =
      call_method fw p 0 (value p ∷ value mode_number ∷ size_of_info ∷ info ∷ [])

  unfoldable pub set_mode : ℕ → M W Reply
  unfolding call_method
  set_mode mode_number = call_method fw p 8 (value p ∷ value mode_number ∷ [])

  unfoldable pub blt : Arg → ℕ → ℕ → ℕ → ℕ → ℕ → ℕ → ℕ → ℕ → M W Reply
  unfolding call_method
  blt blt_buffer blt_operation source_x source_y destination_x destination_y width height delta =
      call_method fw p 0x10 (
        value p
        ∷ blt_buffer
        ∷ value blt_operation
        ∷ value source_x
        ∷ value source_y
        ∷ value destination_x
        ∷ value destination_y
        ∷ value width
        ∷ value height
        ∷ value delta
        ∷ [])
