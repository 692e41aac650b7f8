-- ===== src/Uefi/BlockIo.antt =====
-- The block and disk protocols of pkg/uefi/media_io_protocol.go.
use uki_stub.Common.{ℕ, Bool, [], ◌∷◌}
use uki_stub.Firmware.{Firmware, M, Arg, value, Reply}
use uki_stub.Uefi.{call_method, convert_boolean}

module _ {W : Type 0} (fw : Firmware W) (p : ℕ) where
  unfoldable pub reset : Bool → M W Reply
  unfolding call_method
  reset extended_verification =
      call_method fw p 0x10 (value p ∷ value (convert_boolean extended_verification) ∷ [])

  unfoldable pub read_blocks : ℕ → ℕ → ℕ → Arg → M W Reply
  unfolding call_method
  read_blocks media_id lba buf_size buffer_arg =
      call_method fw p 0x18
        (value p ∷ value media_id ∷ value lba ∷ value buf_size ∷ buffer_arg ∷ [])

  unfoldable pub write_blocks : ℕ → ℕ → ℕ → Arg → M W Reply
  unfolding call_method
  write_blocks media_id lba buf_size buffer_arg =
      call_method fw p 0x20
        (value p ∷ value media_id ∷ value lba ∷ value buf_size ∷ buffer_arg ∷ [])

  unfoldable pub flush_blocks : M W Reply
  unfolding call_method
  flush_blocks = call_method fw p 0x28 (value p ∷ [])

  unfoldable pub read_disk : ℕ → ℕ → ℕ → Arg → M W Reply
  unfolding call_method
  read_disk media_id offset buf_size buffer_arg =
      call_method fw p 8
        (value p ∷ value media_id ∷ value offset ∷ value buf_size ∷ buffer_arg ∷ [])

  unfoldable pub write_disk : ℕ → ℕ → ℕ → Arg → M W Reply
  unfolding call_method
  write_disk media_id offset buf_size buffer_arg =
      call_method fw p 0x10
        (value p ∷ value media_id ∷ value offset ∷ value buf_size ∷ buffer_arg ∷ [])
