-- ===== src/Uefi/FileProtocol.antt =====
-- The file protocols of pkg/uefi/simple_file_system_protocol.go.
use uki_stub.Common.{ℕ, [], ◌∷◌}
use uki_stub.Firmware.{Firmware, M, Arg, value, Reply}
use uki_stub.Uefi.{call_method}

module _ {W : Type 0} (fw : Firmware W) (p : ℕ) where
  unfoldable pub open_volume : Arg → M W Reply
  unfolding call_method
  open_volume root = call_method fw p 8 (value p ∷ root ∷ [])

  unfoldable pub open_file : Arg → Arg → ℕ → ℕ → M W Reply
  unfolding call_method
  open_file new_handle file_name open_mode attributes =
      call_method fw p 8
        (value p ∷ new_handle ∷ file_name ∷ value open_mode ∷ value attributes ∷ value 0 ∷ [])

  unfoldable pub close : M W Reply
  unfolding call_method
  close = call_method fw p 0x10 (value p ∷ [])

  unfoldable pub delete : M W Reply
  unfolding call_method
  delete = call_method fw p 0x18 (value p ∷ [])

  unfoldable pub read : Arg → Arg → M W Reply
  unfolding call_method
  read buffer_size buffer_arg = call_method fw p 0x20 (value p ∷ buffer_size ∷ buffer_arg ∷ [])

  unfoldable pub write : Arg → Arg → M W Reply
  unfolding call_method
  write buffer_size buffer_arg = call_method fw p 0x28 (value p ∷ buffer_size ∷ buffer_arg ∷ [])

  unfoldable pub get_position : Arg → M W Reply
  unfolding call_method
  get_position position = call_method fw p 0x30 (value p ∷ position ∷ [])

  unfoldable pub set_position : ℕ → M W Reply
  unfolding call_method
  set_position position = call_method fw p 0x38 (value p ∷ value position ∷ [])

  unfoldable pub get_info : Arg → Arg → Arg → M W Reply
  unfolding call_method
  get_info info_type buffer_size buffer_arg =
      call_method fw p 0x40 (value p ∷ info_type ∷ buffer_size ∷ buffer_arg ∷ [])

  unfoldable pub set_info : Arg → ℕ → Arg → M W Reply
  unfolding call_method
  set_info info_type buffer_size buffer_arg =
      call_method fw p 0x48 (value p ∷ info_type ∷ value buffer_size ∷ buffer_arg ∷ [])

  unfoldable pub flush : M W Reply
  unfolding call_method
  flush = call_method fw p 0x50 (value p ∷ [])
