-- ===== src/Uefi/BootServices.antt =====
-- EFI_BOOT_SERVICES of pkg/uefi/uefi_spec.go: memory, events, images and time.
use uki_stub.Common.{ℕ, Bool, [], ◌∷◌}
use uki_stub.Firmware.{Firmware, M, Arg, value, Reply}
use uki_stub.Uefi.{call_method, convert_boolean}

module _ {W : Type 0} (fw : Firmware W) (p : ℕ) where
  unfoldable pub raise_tpl : ℕ → M W Reply
  unfolding call_method
  raise_tpl new_tpl = call_method fw p 0x18 (value new_tpl ∷ [])

  unfoldable pub restore_tpl : ℕ → M W Reply
  unfolding call_method
  restore_tpl old_tpl = call_method fw p 0x20 (value old_tpl ∷ [])

  unfoldable pub allocate_pages : ℕ → ℕ → ℕ → Arg → M W Reply
  unfolding call_method
  allocate_pages kind memory_type pages memory =
      call_method fw p 0x28 (value kind ∷ value memory_type ∷ value pages ∷ memory ∷ [])

  unfoldable pub free_pages : ℕ → ℕ → M W Reply
  unfolding call_method
  free_pages memory pages = call_method fw p 0x30 (value memory ∷ value pages ∷ [])

  unfoldable pub get_memory_map : Arg → Arg → Arg → Arg → Arg → M W Reply
  unfolding call_method
  get_memory_map memory_map_size memory_map map_key descriptor_size descriptor_version =
      call_method fw p 0x38
        (memory_map_size ∷ memory_map ∷ map_key ∷ descriptor_size ∷ descriptor_version ∷ [])

  unfoldable pub allocate_pool : ℕ → ℕ → Arg → M W Reply
  unfolding call_method
  allocate_pool pool_type size buffer_arg =
      call_method fw p 0x40 (value pool_type ∷ value size ∷ buffer_arg ∷ [])

  unfoldable pub free_pool : Arg → M W Reply
  unfolding call_method
  free_pool buffer_arg = call_method fw p 0x48 (buffer_arg ∷ [])

  unfoldable pub create_event : ℕ → ℕ → Arg → Arg → Arg → M W Reply
  unfolding call_method
  create_event kind notify_tpl notify_function notify_context event =
      call_method fw p 0x50
        (value kind ∷ value notify_tpl ∷ notify_function ∷ notify_context ∷ event ∷ [])

  unfoldable pub set_timer : ℕ → ℕ → ℕ → M W Reply
  unfolding call_method
  set_timer event kind trigger_time =
      call_method fw p 0x58 (value event ∷ value kind ∷ value trigger_time ∷ [])

  unfoldable pub wait_for_event : ℕ → Arg → Arg → M W Reply
  unfolding call_method
  wait_for_event number_of_events event index =
      call_method fw p 0x60 (value number_of_events ∷ event ∷ index ∷ [])

  unfoldable pub signal_event : ℕ → M W Reply
  unfolding call_method
  signal_event event = call_method fw p 0x68 (value event ∷ [])

  unfoldable pub close_event : ℕ → M W Reply
  unfolding call_method
  close_event event = call_method fw p 0x70 (value event ∷ [])

  unfoldable pub check_event : ℕ → M W Reply
  unfolding call_method
  check_event event = call_method fw p 0x78 (value event ∷ [])

  unfoldable pub install_configuration_table : Arg → Arg → M W Reply
  unfolding call_method
  install_configuration_table guid table = call_method fw p 0xc0 (guid ∷ table ∷ [])

  unfoldable pub load_image : Bool → ℕ → Arg → Arg → ℕ → Arg → M W Reply
  unfolding call_method
  load_image boot_policy parent_image_handle device_path source_buffer source_size image_handle =
      call_method fw p 0xc8 (
        value (convert_boolean boot_policy)
        ∷ value parent_image_handle
        ∷ device_path
        ∷ source_buffer
        ∷ value source_size
        ∷ image_handle
        ∷ [])

  unfoldable pub start_image : ℕ → Arg → Arg → M W Reply
  unfolding call_method
  start_image image_handle exit_data_size exit_data =
      call_method fw p 0xd0 (value image_handle ∷ exit_data_size ∷ exit_data ∷ [])

  unfoldable pub exit : ℕ → ℕ → ℕ → Arg → M W Reply
  unfolding call_method
  exit image_handle exit_status exit_data_size exit_data =
      call_method fw p 0xd8
        (value image_handle ∷ value exit_status ∷ value exit_data_size ∷ exit_data ∷ [])

  unfoldable pub unload_image : ℕ → M W Reply
  unfolding call_method
  unload_image image_handle = call_method fw p 0xe0 (value image_handle ∷ [])

  unfoldable pub exit_boot_services : ℕ → ℕ → M W Reply
  unfolding call_method
  exit_boot_services image_handle map_key =
      call_method fw p 0xe8 (value image_handle ∷ value map_key ∷ [])

  unfoldable pub get_next_monotonic_count : Arg → M W Reply
  unfolding call_method
  get_next_monotonic_count count = call_method fw p 0xf0 (count ∷ [])

  unfoldable pub stall : ℕ → M W Reply
  unfolding call_method
  stall microseconds = call_method fw p 0xf8 (value microseconds ∷ [])

  unfoldable pub set_watchdog_timer : ℕ → ℕ → ℕ → Arg → M W Reply
  unfolding call_method
  set_watchdog_timer timeout watchdog_code data_size watchdog_data =
      call_method fw p 0x100
        (value timeout ∷ value watchdog_code ∷ value data_size ∷ watchdog_data ∷ [])

  unfoldable pub calculate_crc32 : Arg → ℕ → Arg → M W Reply
  unfolding call_method
  calculate_crc32 contents data_size crc32 =
      call_method fw p 0x158 (contents ∷ value data_size ∷ crc32 ∷ [])

  unfoldable pub copy_mem : Arg → Arg → ℕ → M W Reply
  unfolding call_method
  copy_mem destination source length =
      call_method fw p 0x160 (destination ∷ source ∷ value length ∷ [])

  unfoldable pub set_mem : Arg → ℕ → ℕ → M W Reply
  unfolding call_method
  set_mem buffer_arg size byte = call_method fw p 0x168 (buffer_arg ∷ value size ∷ value byte ∷ [])

  unfoldable pub create_event_ex : ℕ → ℕ → Arg → ℕ → Arg → Arg → M W Reply
  unfolding call_method
  create_event_ex kind notify_tpl notify_function notify_context event_group event =
      call_method fw p 0x170 (
        value kind
        ∷ value notify_tpl
        ∷ notify_function
        ∷ value notify_context
        ∷ event_group
        ∷ event
        ∷ [])
