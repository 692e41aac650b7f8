-- ===== src/Uefi/SerialIo.antt =====
-- EFI_SERIAL_IO_PROTOCOL of pkg/uefi/serial_io_protocol.go.
use uki_stub.Common.{ℕ, [], ◌∷◌}
use uki_stub.Firmware.{Firmware, M, Arg, value, Reply}
use uki_stub.Uefi.{call_method}

module _ {W : Type 0} (fw : Firmware W) (p : ℕ) where
  unfoldable pub reset : M W Reply
  unfolding call_method
  reset = call_method fw p 8 (value p ∷ [])

  unfoldable pub set_attributes : ℕ → ℕ → ℕ → ℕ → ℕ → ℕ → M W Reply
  unfolding call_method
  set_attributes baud_rate receive_fifo_depth timeout parity data_bits stop_bits =
      call_method fw p 0x10 (
        value p
        ∷ value baud_rate
        ∷ value receive_fifo_depth
        ∷ value timeout
        ∷ value parity
        ∷ value data_bits
        ∷ value stop_bits
        ∷ [])

  unfoldable pub set_control : ℕ → M W Reply
  unfolding call_method
  set_control control = call_method fw p 0x18 (value p ∷ value control ∷ [])

  unfoldable pub get_control : Arg → M W Reply
  unfolding call_method
  get_control control = call_method fw p 0x20 (value p ∷ control ∷ [])

  unfoldable pub write : Arg → Arg → M W Reply
  unfolding call_method
  write buf_size buffer_arg = call_method fw p 0x28 (value p ∷ buf_size ∷ buffer_arg ∷ [])

  unfoldable pub read : Arg → Arg → M W Reply
  unfolding call_method
  read buf_size buffer_arg = call_method fw p 0x30 (value p ∷ buf_size ∷ buffer_arg ∷ [])
