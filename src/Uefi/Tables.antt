-- ===== src/Uefi/Tables.antt =====
-- The tables of pkg/uefi/util.go, what is looked up through them (loaded_image.go,
-- graphics_output_protocol.go, simple_text_in.go), and WaitForEvent of runtime.go. An error of the
-- package is made by StatusError, which keeps it in the map of errors.
use uki_stub.Common.{
  ℕ, zero, suc, Bool, true, false, replicate, get_or, Option, none, some, List, [], ◌∷◌, ◌==◌,
  if◌then◌else◌,
}
use uki_stub.Firmware.{Firmware, M, value, reference, buffer, Reply, left_in, return, ◌>>=◌}
use uki_stub.Status.{efi_success}
use uki_stub.Status.ErrorMap.{Error, ErrMap, status_error}
use uki_stub.Uefi.{field, efi_guid, call_method}
use uki_stub.Uefi.ProtocolServices.{handle_protocol, locate_protocol}
use uki_stub.Uefi.BootServices.{check_event}
use uki_stub.Uefi.TextInput.{read_key_stroke_ex}
use uki_stub.Uefi.FileProtocol.{open_volume}

-- The variables systemTable and imageHandle of util.go. The functions below take them as arguments.
pub record Globals : Type 0 where
  pub system_table : ℕ
  pub image_handle : ℕ

-- Init
abbrev pub init : ℕ → ℕ → Globals → Globals
init image_handle system_table g = record {
  system_table = system_table;
  image_handle = image_handle;
}

abbrev pub graphics_output_guid : List ℕ
graphics_output_guid =
    efi_guid 0x9042a9de 0x23dc 0x4a38 (0x96 ∷ 0xfb ∷ 0x7a ∷ 0xde ∷ 0xd0 ∷ 0x80 ∷ 0x51 ∷ 0x6a ∷ [])

abbrev pub text_input_ex_guid : List ℕ
text_input_ex_guid =
    efi_guid 0xdd9e7534 0x7762 0x4698 (0x8c ∷ 0x14 ∷ 0xf5 ∷ 0x85 ∷ 0x17 ∷ 0xa6 ∷ 0x25 ∷ 0xaa ∷ [])

abbrev pub loaded_image_guid : List ℕ
loaded_image_guid =
    efi_guid 0x5b1b31a1 0x9562 0x11d2 (0x8e ∷ 0x3f ∷ 0x00 ∷ 0xa0 ∷ 0xc9 ∷ 0x69 ∷ 0x72 ∷ 0x3b ∷ [])

-- The pointer that a lookup left, or the error of its status.
abbrev pub Lookup : Type 0
Lookup = ℕ × Option Error

abbrev pub looked_up : ℕ → ℕ → ErrMap → Lookup × ErrMap
looked_up status interface errs =
    if status == efi_success
    then ((interface, none), errs)
    else let made = status_error status errs in ((0, made.0), made.1)

-- An EFI_KEY_DATA of zeros, and what a call made of it.
abbrev pub key_zero : List ℕ
key_zero = replicate 12 0

abbrev pub key_of : Reply → List ℕ
key_of r = get_or r.bufs 0 key_zero

-- `st` is the address of the system table, `image` the image handle that Init was given.
module _ {W : Type 0} (fw : Firmware W) (st : ℕ) (image : ℕ) where
  -- BS()
  unfoldable pub boot_services : M W ℕ
  unfolding field
  boot_services = field fw st 96

  -- BS().HandleProtocol for a variable that is nil before: the status, and the variable.
  unfoldable pub probe : ℕ → List ℕ → M W (ℕ × ℕ)
  probe handle guid = do
    bs ← boot_services
    r ← handle_protocol fw bs handle (buffer guid) (reference 0)
    return (r.status, left_in r 0 0)

  -- BS().LocateProtocol for a variable that is nil before.
  unfoldable pub locate : List ℕ → M W (ℕ × ℕ)
  locate guid = do
    bs ← boot_services
    r ← locate_protocol fw bs (buffer guid) (value 0) (reference 0)
    return (r.status, left_in r 0 0)

  unfoldable pub graphics_output_protocol : ErrMap → M W (Lookup × ErrMap)
  graphics_output_protocol errs = do
    (status, i) ← locate graphics_output_guid
    return (looked_up status i errs)

  unfoldable pub simple_text_in_ex_protocol : ErrMap → M W (Lookup × ErrMap)
  simple_text_in_ex_protocol errs = do
    (status, i) ← locate text_input_ex_guid
    return (looked_up status i errs)

  unfoldable pub get_loaded_image_protocol : ErrMap → M W (Lookup × ErrMap)
  get_loaded_image_protocol errs = do
    (status, i) ← probe image loaded_image_guid
    return (looked_up status i errs)

  -- EFI_LOADED_IMAGE_PROTOCOL.Unload: the handle that it is given is not used.
  unfoldable pub unload : ℕ → ℕ → M W Reply
  unfolding call_method
  unload p handle = call_method fw p 96 (value image ∷ [])

  -- WaitForEvent, for so many rounds; `false` is that the event was not seen in them.
  unfoldable pub wait_for_event : ℕ → ℕ → M W Bool
  unfolding boot_services check_event
  wait_for_event zero event = return false
  wait_for_event (suc rounds) event = do
    bs ← boot_services
    r ← check_event fw bs event
    if r.status == efi_success then return true else wait_for_event rounds event

  -- GetKey, of which the wait takes so many rounds: the bytes of the key data, whatever the status.
  -- `none` is that the event was not seen.
  unfoldable pub get_key : ℕ → ℕ → M W (Option (List ℕ))
  unfolding field read_key_stroke_ex
  get_key rounds p = do
    event ← field fw p 16
    seen ← wait_for_event rounds event
    if seen
        then (do r ← read_key_stroke_ex fw p (buffer key_zero); return (some (key_of r)))
        else return none

  -- OpenRoot: the root directory and the status.
  unfoldable pub open_root : ℕ → M W (ℕ × ℕ)
  unfolding open_volume
  open_root sfs = do
    r ← open_volume fw sfs (reference 0)
    return (if r.status == efi_success then (left_in r 0 0, efi_success) else (0, r.status))
