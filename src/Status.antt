-- ===== src/Status.antt =====
-- pkg/ueficore/error.go: the EFI status codes and parseStatus; pkg/uefi/efistatus.go is modelled by
-- the child ErrorMap.
pub mod ErrorMap
use uki_stub.Common.{ℕ, ◌==◌, if◌then◌else◌, Option, none, some, Failure, efi_status}

abbrev pub efi_success : ℕ
efi_success = 0

abbrev pub efi_not_ready : ℕ
efi_not_ready = 6

abbrev pub efi_device_error : ℕ
efi_device_error = 7

-- The error of a status, `none` for nil. The message shows the status in full.
unfoldable pub parse_status : ℕ → Option Failure
parse_status status = if status == efi_success then none else some (efi_status status)
