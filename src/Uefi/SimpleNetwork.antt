-- ===== src/Uefi/SimpleNetwork.antt =====
-- EFI_SIMPLE_NETWORK_PROTOCOL of pkg/uefi/simple_network_protocol.go.
use uki_stub.Common.{ℕ, [], ◌∷◌}
use uki_stub.Firmware.{Firmware, M, value, Reply}
use uki_stub.Uefi.{call_method}

module _ {W : Type 0} (fw : Firmware W) (p : ℕ) where
  unfoldable pub start : M W Reply
  unfolding call_method
  start = call_method fw p 8 (value p ∷ [])

  unfoldable pub stop : M W Reply
  unfolding call_method
  stop = call_method fw p 0x10 (value p ∷ [])

  unfoldable pub initialize : M W Reply
  unfolding call_method
  initialize = call_method fw p 0x18 (value p ∷ [])

  unfoldable pub shutdown : M W Reply
  unfolding call_method
  shutdown = call_method fw p 0x28 (value p ∷ [])
