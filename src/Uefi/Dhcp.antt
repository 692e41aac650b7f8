-- ===== src/Uefi/Dhcp.antt =====
-- The DHCP protocols of pkg/uefi/dhcpv4.go.
use uki_stub.Common.{ℕ, [], ◌∷◌}
use uki_stub.Firmware.{Firmware, M, Arg, value, Reply}
use uki_stub.Uefi.{call_method}

module _ {W : Type 0} (fw : Firmware W) (p : ℕ) where
  unfoldable pub create_child : Arg → M W Reply
  unfolding call_method
  create_child child_handle = call_method fw p 0 (value p ∷ child_handle ∷ [])

  unfoldable pub destroy_child : ℕ → M W Reply
  unfolding call_method
  destroy_child child_handle = call_method fw p 8 (value p ∷ value child_handle ∷ [])

  unfoldable pub get_mode_data : Arg → M W Reply
  unfolding call_method
  get_mode_data mode_data = call_method fw p 0 (value p ∷ mode_data ∷ [])

  unfoldable pub configure : Arg → M W Reply
  unfolding call_method
  configure cfg = call_method fw p 8 (value p ∷ cfg ∷ [])

  unfoldable pub start : Arg → M W Reply
  unfolding call_method
  start async_event = call_method fw p 0x10 (value p ∷ async_event ∷ [])

  unfoldable pub renew_rebind : Arg → M W Reply
  unfolding call_method
  renew_rebind async_event = call_method fw p 0x18 (value p ∷ async_event ∷ [])

  unfoldable pub release : Arg → M W Reply
  unfolding call_method
  release async_event = call_method fw p 0x20 (value p ∷ async_event ∷ [])

  unfoldable pub stop : M W Reply
  unfolding call_method
  stop = call_method fw p 0x28 (value p ∷ [])

  unfoldable pub build : Arg → M W Reply
  unfolding call_method
  build packet_buffer = call_method fw p 0x30 (value p ∷ packet_buffer ∷ [])

  unfoldable pub transmit_receive : Arg → M W Reply
  unfolding call_method
  transmit_receive token = call_method fw p 0x38 (value p ∷ token ∷ [])

  unfoldable pub parse : Arg → Arg → M W Reply
  unfolding call_method
  parse packet_buffer parse_result =
      call_method fw p 0x40 (value p ∷ packet_buffer ∷ parse_result ∷ [])
