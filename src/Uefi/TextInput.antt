-- ===== src/Uefi/TextInput.antt =====
-- The text input protocols of pkg/uefi/simple_text_in.go.
use uki_stub.Common.{ℕ, Bool, [], ◌∷◌}
use uki_stub.Firmware.{Firmware, M, Arg, value, Reply}
use uki_stub.Uefi.{call_method, convert_boolean}

module _ {W : Type 0} (fw : Firmware W) (p : ℕ) where
  unfoldable pub reset : Bool → M W Reply
  unfolding call_method
  reset extended_verification =
      call_method fw p 0 (value p ∷ value (convert_boolean extended_verification) ∷ [])

  unfoldable pub read_key_stroke : Arg → M W Reply
  unfolding call_method
  read_key_stroke key = call_method fw p 8 (value p ∷ key ∷ [])

  unfoldable pub reset_ex : Bool → M W Reply
  unfolding call_method
  reset_ex extended_verification =
      call_method fw p 0 (value p ∷ value (convert_boolean extended_verification) ∷ [])

  unfoldable pub read_key_stroke_ex : Arg → M W Reply
  unfolding call_method
  read_key_stroke_ex key = call_method fw p 8 (value p ∷ key ∷ [])
