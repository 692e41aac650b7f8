-- ===== src/Uefi/Enumerate.antt =====
-- The enumerations of pkg/uefi: EnumerateDisks, EnumerateFileSystems, EnumerateSerialPorts,
-- EnumerateDHCPv4 and EnumerateSNP. Each asks for the handles of a protocol and then walks them.
use uki_stub.Common.{
  ℕ, zero, suc, ◌+◌, ◌*◌, ◌^◌, ◌&&◌, ◌||◌, true, Option, none, some, List, [], ◌∷◌, ltb, ◌==◌,
  if◌then◌else◌, take, drop, ok,
}
use uki_stub.Firmware.{
  Firmware, M, value, reference, buffer, left_in, return, crash, observe, ◌>>=◌,
}
use uki_stub.Status.{efi_success}
use uki_stub.Status.ErrorMap.{Error, ErrMap, status_error, error_status}
use uki_stub.Wire.{le_value}
use uki_stub.Uefi.{efi_guid}
use uki_stub.Uefi.Tables.{boot_services, probe}
use uki_stub.Uefi.ProtocolServices.{locate_handle_buffer, connect_controller}
use uki_stub.Uefi.Dhcp.{create_child}

abbrev pub disk_io_guid : List ℕ
disk_io_guid =
    efi_guid 0xce345171 0xba0b 0x11d2 (0x8e ∷ 0x4f ∷ 0x00 ∷ 0xa0 ∷ 0xc9 ∷ 0x69 ∷ 0x72 ∷ 0x3b ∷ [])

abbrev pub block_io_guid : List ℕ
block_io_guid =
    efi_guid 0x964e5b21 0x6459 0x11d2 (0x8e ∷ 0x39 ∷ 0x00 ∷ 0xa0 ∷ 0xc9 ∷ 0x69 ∷ 0x72 ∷ 0x3b ∷ [])

abbrev pub simple_file_system_guid : List ℕ
simple_file_system_guid =
    efi_guid 0x964e5b22 0x6459 0x11d2 (0x8e ∷ 0x39 ∷ 0x00 ∷ 0xa0 ∷ 0xc9 ∷ 0x69 ∷ 0x72 ∷ 0x3b ∷ [])

abbrev pub serial_io_guid : List ℕ
serial_io_guid =
    efi_guid 0xbb25cf6f 0xf1d4 0x11d2 (0x9a ∷ 0x0c ∷ 0x00 ∷ 0x90 ∷ 0x27 ∷ 0x3f ∷ 0xc1 ∷ 0xfd ∷ [])

abbrev pub dhcp4_service_binding_guid : List ℕ
dhcp4_service_binding_guid =
    efi_guid 0x9d9a39d8 0xbd42 0x4a73 (0xa4 ∷ 0xd5 ∷ 0x8e ∷ 0xe9 ∷ 0x4b ∷ 0xe1 ∷ 0x13 ∷ 0x80 ∷ [])

abbrev pub dhcp4_guid : List ℕ
dhcp4_guid =
    efi_guid 0x8a219718 0x4ef5 0x4761 (0x91 ∷ 0xc8 ∷ 0xc0 ∷ 0xf0 ∷ 0x4b ∷ 0xda ∷ 0x9e ∷ 0x56 ∷ [])

abbrev pub simple_network_guid : List ℕ
simple_network_guid =
    efi_guid 0xa19832b9 0xac25 0x11d3 (0x9a ∷ 0x2d ∷ 0x00 ∷ 0x90 ∷ 0x27 ∷ 0x3f ∷ 0xc1 ∷ 0x4d ∷ [])

abbrev pub by_protocol : ℕ
by_protocol = 2

abbrev pub efi_not_found : ℕ
efi_not_found = error_status 14

-- The handles in a buffer of 8 bytes each.
unfoldable pub handles_of : ℕ → List ℕ → List ℕ
unfolding le_value
handles_of zero bytes = []
handles_of (suc n) bytes = le_value (take 8 bytes) ∷ handles_of n (drop 8 bytes)

-- What an enumeration hands back, with the map of errors.
abbrev pub Found : Type 0 → Type 0
Found A = (List A × Option Error) × ErrMap

abbrev pub failed : {A : Type 0} → ℕ → ErrMap → Found A
failed status errs = let made = status_error status errs in (([], made.0), made.1)

module _ {W : Type 0} (fw : Firmware W) (st image : ℕ) where
  -- `unsafe.Slice` of handles: it panics on a nil pointer with a count, and on a slice that runs out
  -- of the address space.
  unfoldable pub slice_handles : ℕ → ℕ → M W (List ℕ)
  unfolding handles_of
  slice_handles addr count =
      if (addr == 0 && ltb 0 count) || ltb (2 ^ 64) (addr + 8 * count)
      then crash
      else observe (λ w. ok (handles_of count (fw.load addr (8 * count) w)))

  -- LocateHandleBuffer by protocol: the status, the count and the address of the handles.
  unfoldable pub locate_handles : List ℕ → M W (ℕ × ℕ × ℕ)
  locate_handles guid = do
    bs ← boot_services fw st image
    r ← locate_handle_buffer fw bs by_protocol (buffer guid) (value 0) (reference 0) (reference 0)
    return (r.status, left_in r 0 0, left_in r 1 0)

  -- A loop over handles that keeps what its body finds.
  unfoldable pub collect : {A : Type 0} → (ℕ → M W (Option A)) → List ℕ → M W (List A)
  collect body [] = return []
  collect body (h ∷ hs) = do
    found ← body h
    rest ← collect body hs
    return (elim found [ none ↦ rest | some a ↦ a ∷ rest ])

  -- The bodies of the loops.
  unfoldable pub disk_of : ℕ → M W (Option (ℕ × ℕ))
  disk_of h = do
    (s1, dio) ← probe fw st image h disk_io_guid
    if s1 == efi_success
        then (do
          (s2, bio) ← probe fw st image h block_io_guid
          return (if s2 == efi_success then some (dio, bio) else none))
        else return none

  unfoldable pub file_system_of : ℕ → M W (Option ℕ)
  file_system_of h = do
    (s, sfs) ← probe fw st image h simple_file_system_guid
    return (if s == efi_success then some sfs else none)

  unfoldable pub dhcp_of : ℕ → M W (Option ℕ)
  dhcp_of h = do
    (s1, binding) ← probe fw st image h dhcp4_service_binding_guid
    if s1 == efi_success
        then (do
          r ← create_child fw binding (reference 0)
          if r.status == efi_success
              then (do
                (s2, dhcp) ← probe fw st image (left_in r 0 0) dhcp4_guid
                return (if s2 == efi_success then some dhcp else none))
              else return none)
        else return none

  -- The status of ConnectController is not looked at, and the protocol asked for is that of DHCP.
  unfoldable pub network_of : ℕ → M W (Option ℕ)
  network_of h = do
    bs ← boot_services fw st image
    _ ← connect_controller fw bs h (value 0) (value 0) true
    (s, snp) ← probe fw st image h dhcp4_service_binding_guid
    return (if s == efi_success then some snp else none)

  -- The loop over the serial ports ends at the first status that is no success.
  unfoldable pub ports_of : List ℕ → M W (List ℕ × ℕ)
  ports_of [] = return ([], efi_success)
  ports_of (h ∷ hs) = do
    (s, port) ← probe fw st image h serial_io_guid
    if s == efi_success
        then (do (ports, status) ← ports_of hs; return (port ∷ ports, status))
        else return ([], s)

  unfoldable pub enumerate_disks : ErrMap → M W (Found (ℕ × ℕ))
  enumerate_disks errs = do
    (status, count, addr) ← locate_handles disk_io_guid
    if status == efi_not_found
        then return (([], none), errs)
        else if status == efi_success
        then (do
          handles ← slice_handles addr count
          disks ← collect disk_of handles
          return ((disks, none), errs))
        else return (failed status errs)

  unfoldable pub enumerate_file_systems : ErrMap → M W (Found ℕ)
  enumerate_file_systems errs = do
    (status, count, addr) ← locate_handles simple_file_system_guid
    if status == efi_not_found
        then return (([], none), errs)
        else if status == efi_success
        then (do
          handles ← slice_handles addr count
          found ← collect file_system_of handles
          return ((found, none), errs))
        else return (failed status errs)

  unfoldable pub enumerate_dhcpv4 : ErrMap → M W (Found ℕ)
  enumerate_dhcpv4 errs = do
    (status, count, addr) ← locate_handles dhcp4_service_binding_guid
    if status == efi_success
        then (do
          handles ← slice_handles addr count
          found ← collect dhcp_of handles
          return ((found, none), errs))
        else return (failed status errs)

  unfoldable pub enumerate_snp : ErrMap → M W (Found ℕ)
  enumerate_snp errs = do
    (status, count, addr) ← locate_handles simple_network_guid
    if status == efi_success
        then (do
          handles ← slice_handles addr count
          found ← collect network_of handles
          return ((found, none), errs))
        else return (failed status errs)

  unfoldable pub enumerate_serial_ports : ErrMap → M W (Found ℕ)
  enumerate_serial_ports errs = do
    (status, count, addr) ← locate_handles serial_io_guid
    if status == efi_success
        then (do
          handles ← slice_handles addr count
          (ports, last) ← ports_of handles
          if last == efi_success then return ((ports, none), errs) else return (failed last errs))
        else return (failed status errs)
