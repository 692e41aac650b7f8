-- ===== src/Uefi/TextOutput.antt =====
-- EFI_SIMPLE_TEXT_OUTPUT_PROTOCOL of pkg/uefi/simple_text_out.go.
use uki_stub.Common.{ℕ, Bool, [], ◌∷◌}
use uki_stub.Firmware.{Firmware, M, Arg, value, Reply}
use uki_stub.Uefi.{call_method, convert_boolean}

module _ {W : Type 0} (fw : Firmware W) (p : ℕ) where
  unfoldable pub reset : Bool → M W Reply
  unfolding call_method
  reset extended_verification =
      call_method fw p 0 (value p ∷ value (convert_boolean extended_verification) ∷ [])

  unfoldable pub output_string : Arg → M W Reply
  unfolding call_method
  output_string string = call_method fw p 8 (value p ∷ string ∷ [])

  unfoldable pub test_string : Arg → M W Reply
  unfolding call_method
  test_string string = call_method fw p 0x10 (value p ∷ string ∷ [])

  unfoldable pub query_mode : ℕ → Arg → Arg → M W Reply
  unfolding call_method
  query_mode mode_number columns rows =
      call_method fw p 0x18 (value p ∷ value mode_number ∷ columns ∷ rows ∷ [])

  unfoldable pub set_mode : ℕ → M W Reply
  unfolding call_method
  set_mode mode_number = call_method fw p 0x20 (value p ∷ value mode_number ∷ [])

  unfoldable pub set_attribute : ℕ → M W Reply
  unfolding call_method
  set_attribute attribute = call_method fw p 0x28 (value p ∷ value attribute ∷ [])

  unfoldable pub clear_screen : M W Reply
  unfolding call_method
  clear_screen = call_method fw p 0x30 (value p ∷ [])

  unfoldable pub set_cursor_position : ℕ → ℕ → M W Reply
  unfolding call_method
  set_cursor_position column row = call_method fw p 0x38 (value p ∷ value column ∷ value row ∷ [])

  unfoldable pub enable_cursor : Bool → M W Reply
  unfolding call_method
  enable_cursor visible = call_method fw p 0x40 (value p ∷ value (convert_boolean visible) ∷ [])
