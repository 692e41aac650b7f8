-- ===== src/Uefi/ProtocolServices.antt =====
-- EFI_BOOT_SERVICES of pkg/uefi/uefi_spec.go: handles, protocols and drivers.
use uki_stub.Common.{ℕ, Bool, [], ◌∷◌}
use uki_stub.Firmware.{Firmware, M, Arg, value, Reply}
use uki_stub.Uefi.{call_method, convert_boolean}

module _ {W : Type 0} (fw : Firmware W) (p : ℕ) where
  unfoldable pub install_protocol_interface : Arg → Arg → ℕ → Arg → M W Reply
  unfolding call_method
  install_protocol_interface handle protocol interface_type interface =
      call_method fw p 0x80 (handle ∷ protocol ∷ value interface_type ∷ interface ∷ [])

  unfoldable pub reinstall_protocol_interface : ℕ → Arg → Arg → Arg → M W Reply
  unfolding call_method
  reinstall_protocol_interface handle protocol old_interface new_interface =
      call_method fw p 0x88 (value handle ∷ protocol ∷ old_interface ∷ new_interface ∷ [])

  unfoldable pub uninstall_protocol_interface : ℕ → Arg → Arg → M W Reply
  unfolding call_method
  uninstall_protocol_interface handle protocol interface =
      call_method fw p 0x90 (value handle ∷ protocol ∷ interface ∷ [])

  unfoldable pub handle_protocol : ℕ → Arg → Arg → M W Reply
  unfolding call_method
  handle_protocol handle protocol interface =
      call_method fw p 0x98 (value handle ∷ protocol ∷ interface ∷ [])

  unfoldable pub register_protocol_notify : Arg → ℕ → Arg → M W Reply
  unfolding call_method
  register_protocol_notify protocol event registration =
      call_method fw p 0xa8 (protocol ∷ value event ∷ registration ∷ [])

  unfoldable pub locate_handle : ℕ → Arg → Arg → Arg → Arg → M W Reply
  unfolding call_method
  locate_handle search_type protocol search_key buffer_size buffer_arg =
      call_method fw p 0xb0
        (value search_type ∷ protocol ∷ search_key ∷ buffer_size ∷ buffer_arg ∷ [])

  unfoldable pub locate_device_path : Arg → Arg → Arg → M W Reply
  unfolding call_method
  locate_device_path protocol device_path device =
      call_method fw p 0xb8 (protocol ∷ device_path ∷ device ∷ [])

  unfoldable pub connect_controller : ℕ → Arg → Arg → Bool → M W Reply
  unfolding call_method
  connect_controller controller_handle driver_image_handle remaining_device_path recursive =
      call_method fw p 0x108 (
        value controller_handle
        ∷ driver_image_handle
        ∷ remaining_device_path
        ∷ value (convert_boolean recursive)
        ∷ [])

  unfoldable pub disconnect_controller : ℕ → ℕ → ℕ → M W Reply
  unfolding call_method
  disconnect_controller controller_handle driver_image_handle child_handle =
      call_method fw p 0x110
        (value controller_handle ∷ value driver_image_handle ∷ value child_handle ∷ [])

  unfoldable pub open_protocol : ℕ → Arg → Arg → ℕ → ℕ → ℕ → M W Reply
  unfolding call_method
  open_protocol handle protocol interface agent_handle controller_handle attributes =
      call_method fw p 0x118 (
        value handle
        ∷ protocol
        ∷ interface
        ∷ value agent_handle
        ∷ value controller_handle
        ∷ value attributes
        ∷ [])

  unfoldable pub close_protocol : ℕ → Arg → ℕ → ℕ → M W Reply
  unfolding call_method
  close_protocol handle protocol agent_handle controller_handle =
      call_method fw p 0x120
        (value handle ∷ protocol ∷ value agent_handle ∷ value controller_handle ∷ [])

  unfoldable pub open_protocol_information : ℕ → Arg → Arg → Arg → M W Reply
  unfolding call_method
  open_protocol_information handle protocol entry_buffer entry_count =
      call_method fw p 0x128 (value handle ∷ protocol ∷ entry_buffer ∷ entry_count ∷ [])

  unfoldable pub protocols_per_handle : ℕ → Arg → Arg → M W Reply
  unfolding call_method
  protocols_per_handle handle protocol_buffer protocol_buffer_count =
      call_method fw p 0x130 (value handle ∷ protocol_buffer ∷ protocol_buffer_count ∷ [])

  unfoldable pub locate_handle_buffer : ℕ → Arg → Arg → Arg → Arg → M W Reply
  unfolding call_method
  locate_handle_buffer search_type protocol search_key no_handles buffer_arg =
      call_method fw p 0x138
        (value search_type ∷ protocol ∷ search_key ∷ no_handles ∷ buffer_arg ∷ [])

  unfoldable pub locate_protocol : Arg → Arg → Arg → M W Reply
  unfolding call_method
  locate_protocol protocol registration interface_ptr =
      call_method fw p 0x140 (protocol ∷ registration ∷ interface_ptr ∷ [])

  unfoldable pub install_multiple_protocol_interfaces : Arg → M W Reply
  unfolding call_method
  install_multiple_protocol_interfaces handle = call_method fw p 0x148 (handle ∷ [])

  unfoldable pub uninstall_multiple_protocol_interfaces : ℕ → M W Reply
  unfolding call_method
  uninstall_multiple_protocol_interfaces handle = call_method fw p 0x150 (value handle ∷ [])
