-- ===== src/Uefi/RuntimeServices.antt =====
-- EFI_RUNTIME_SERVICES of pkg/uefi/uefi_spec.go.
use uki_stub.Common.{ℕ, Bool, [], ◌∷◌}
use uki_stub.Firmware.{Firmware, M, Arg, value, Reply}
use uki_stub.Uefi.{call_method, call_slot, convert_boolean}

module _ {W : Type 0} (fw : Firmware W) (p : ℕ) where
  unfoldable pub get_time : Arg → Arg → M W Reply
  unfolding call_method
  get_time time capabilities = call_method fw p 0x18 (time ∷ capabilities ∷ [])

  unfoldable pub set_time : Arg → M W Reply
  unfolding call_method
  set_time time = call_method fw p 0x20 (time ∷ [])

  unfoldable pub get_wakeup_time : Arg → Arg → Arg → M W Reply
  unfolding call_method
  get_wakeup_time enabled pending time = call_method fw p 0x28 (enabled ∷ pending ∷ time ∷ [])

  unfoldable pub set_wakeup_time : Bool → Arg → M W Reply
  unfolding call_method
  set_wakeup_time enable time = call_method fw p 0x30 (value (convert_boolean enable) ∷ time ∷ [])

  unfoldable pub set_virtual_address_map : ℕ → ℕ → ℕ → Arg → M W Reply
  unfolding call_method
  set_virtual_address_map memory_map_size descriptor_size descriptor_version virtual_map =
      call_method fw p 0x38 (
        value memory_map_size ∷ value descriptor_size ∷ value descriptor_version ∷ virtual_map ∷ [])

  unfoldable pub convert_pointer : ℕ → Arg → M W Reply
  unfolding call_method
  convert_pointer debug_disposition address =
      call_method fw p 0x40 (value debug_disposition ∷ address ∷ [])

  unfoldable pub get_variable : Arg → Arg → Arg → Arg → Arg → M W Reply
  unfolding call_slot
  get_variable variable_name vendor_guid attributes data_size contents =
      call_slot fw p 0x48 (variable_name ∷ vendor_guid ∷ attributes ∷ data_size ∷ contents ∷ [])

  unfoldable pub get_next_variable_name : Arg → Arg → Arg → M W Reply
  unfolding call_slot
  get_next_variable_name variable_name_size variable_name vendor_guid =
      call_slot fw p 0x50 (variable_name_size ∷ variable_name ∷ vendor_guid ∷ [])

  unfoldable pub set_variable : Arg → Arg → ℕ → ℕ → Arg → M W Reply
  unfolding call_method
  set_variable variable_name vendor_guid attributes data_size contents =
      call_method fw p 0x58
        (variable_name ∷ vendor_guid ∷ value attributes ∷ value data_size ∷ contents ∷ [])

  unfoldable pub get_next_high_monotonic_count : Arg → M W Reply
  unfolding call_method
  get_next_high_monotonic_count high_count = call_method fw p 0x60 (high_count ∷ [])

  unfoldable pub reset_system : ℕ → ℕ → ℕ → Arg → M W Reply
  unfolding call_method
  reset_system reset_type reset_status data_size reset_data =
      call_method fw p 0x68
        (value reset_type ∷ value reset_status ∷ value data_size ∷ reset_data ∷ [])

  unfoldable pub update_capsule : Arg → ℕ → ℕ → M W Reply
  unfolding call_method
  update_capsule capsule_header_array capsule_count scatter_gather_list =
      call_method fw p 0x70
        (capsule_header_array ∷ value capsule_count ∷ value scatter_gather_list ∷ [])

  unfoldable pub query_capsule_capabilities : Arg → ℕ → Arg → Arg → M W Reply
  unfolding call_method
  query_capsule_capabilities capsule_header_array capsule_count maximum_capsule_size reset_type =
      call_method fw p 0x78
        (capsule_header_array ∷ value capsule_count ∷ maximum_capsule_size ∷ reset_type ∷ [])

  unfoldable pub query_variable_info : ℕ → Arg → Arg → Arg → M W Reply
  unfolding call_method
  query_variable_info attributes maximum_variable_storage_size remaining_variable_storage_size
        maximum_variable_size =
      call_method fw p 0x80 (
        value attributes
        ∷ maximum_variable_storage_size
        ∷ remaining_variable_storage_size
        ∷ maximum_variable_size
        ∷ [])
