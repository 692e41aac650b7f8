-- ===== src/Kernel.antt =====
-- The commands cmd/efi-verify, cmd/efiload and cmd/recovery: a kernel is loaded from a file or
-- taken from memory, and started as an EFI image with a command line.
pub mod Verify
pub mod Efiload
pub mod Recovery
pub mod Variables
pub mod Config
pub mod Start
pub mod Loading
pub mod Parsing
pub mod Boot
pub mod Cursor
pub mod Listing
use uki_stub.Common.{
  ℕ, zero, suc, ◌-◌, ◌&&◌, ◌||◌, ◌+◌, ◌*◌, ◌%◌, ◌^◌, Option, none, some, List, [], ◌∷◌, ◌++◌, ltb,
  if◌then◌else◌, length, take, Stage, root_volume, opening, reading, loading, Failure, is_eof,
  during, unfinished, ok, err, panic,
}
use uki_stub.Firmware.{M, ◌>>=◌, return, observe, fail, crash, attempt, check, zeros}
use uki_stub.Wire.{le_bytes}
use uki_stub.Guid.{codes}
use uki_stub.Utf16
use uki_stub.Utf8
use uki_stub.Kernel.Config.{Signed, split_config, atoi}

-- What the commands use: of the services `x64.UEFI`, which efi-verify takes from pkg/ueficore and
-- the others from the package go-boot, and of the Go runtime. `R` is an open volume, `F` an open
-- file.
pub record Services (W R F : Type 0) : Type 0 where
  pub root : M W R
  pub open_file : R → List ℕ → M W F
  pub read : F → List ℕ → M W (ℕ × List ℕ × Option Failure)
  pub load_image_mem : ℕ → R → List ℕ → List ℕ → M W (ℕ × Option Failure)
  -- The address and the error of LoadImageHandle.
  pub image_address : ℕ → M W (ℕ × Option Failure)
  pub start_image : ℕ → M W (Option Failure)
  pub exit : ℕ → M W (Option Failure)
  pub reset_system : ℕ → M W (Option Failure)
  -- The address at which the runtime keeps a slice of uint16.
  pub pin : List ℕ → M W ℕ
  -- The free capacity of a buffer of io.ReadAll that holds so many bytes.
  pub room : ℕ → ℕ
  -- A read and a write through an `unsafe.Pointer`.
  pub load : ℕ → ℕ → W → List ℕ
  pub store : ℕ → List ℕ → W → W

-- An error is wrapped in the text of a stage.
abbrev pub at_stage : {W A : Type 0} → Stage → M W A → M W A
at_stage s m w =
    let r = m w in
    elim (r.0) [ ok a ↦ (ok a, r.1) | err e ↦ (err (during s e), r.1) | panic ↦ (panic, r.1) ]

abbrev pub kernel_path : List ℕ
kernel_path = codes "\\EFI\\linux\\kernel.efi"

-- How main ends: by os.Exit(1), or by its last line.
pub data End : Type 0 where
  exited : End
  returned : End

-- stringToUTF16Ptr: the units behind the pointer, for the bytes of a Go string.
unfoldable pub utf16_units : List ℕ → List ℕ
unfolding Utf8.runes Utf16.encode
utf16_units s = Utf16.encode (Utf8.runes s) ++ 0 ∷ []

module _ {W R F : Type 0} (api : Services W R F) where
  -- io.ReadAll, in so many rounds: the bytes, and the error that is not the end of the file.
  unfoldable pub read_all : ℕ → F → List ℕ → M W (List ℕ × Option Failure)
  read_all zero f b = fail unfinished
  read_all (suc rounds) f b = do
    (count, buf, e) ← api.read f (zeros (api.room (length b)))
    if ltb (length buf) count then crash else elim e [
      | none ↦ read_all rounds f (b ++ take count buf)
      | some e ↦ return (b ++ take count buf, if is_eof e then none else some e)
    ]

  -- The start of load and loadAndVerify: the file is opened and read.
  unfoldable pub read_file : ℕ → List ℕ → M W (List ℕ × Option Failure)
  unfolding read_all
  read_file rounds path = do
    root ← at_stage root_volume api.root
    f ← at_stage opening (api.open_file root path)
    read_all rounds f []

  -- load of efi-verify
  unfoldable pub load : ℕ → List ℕ → M W (List ℕ)
  unfolding read_file
  load rounds path = do (bytes, e) ← read_file rounds path; at_stage reading (check bytes e)

  -- loadAndVerify of efiload and of recovery: an error of the reading is printed, and what was
  -- read is handed back.
  unfoldable pub load_and_verify : ℕ → List ℕ → M W (List ℕ)
  unfolding read_file
  load_and_verify rounds path = do (bytes, e) ← read_file rounds path; return bytes

  -- `*ptr = value` of a number of so many bytes.
  unfoldable pub put : ℕ → ℕ → ℕ → M W (Unit {0})
  unfolding le_bytes
  put addr size value w = (ok tt, api.store (addr % 2 ^ 64) (le_bytes size value) w)

  unfoldable pub load_kernel : R → List ℕ → List ℕ → M W ℕ
  load_kernel root path data' = do
    (h, e) ← api.load_image_mem 0 root path data'
    at_stage loading (check h e)

  -- The error of LoadImageHandle is not looked at.
  unfoldable pub set_options : ℕ → List ℕ → M W (Unit {0})
  unfolding utf16_units put
  set_options h cmdline = do
    (addr, _) ← api.image_address h
    ptr ← api.pin (utf16_units cmdline)
    _ ← put (addr + 48) 4 (length cmdline * 2 % 2 ^ 32)
    put (addr + 56) 8 ptr

  -- The end of each executeKernel: the image is loaded, its options are set to the command line,
  -- and it is started.
  unfoldable pub start_kernel : R → List ℕ → List ℕ → List ℕ → M W (Option Failure)
  unfolding load_kernel set_options
  start_kernel root path data' cmdline = do
    h ← load_kernel root path data'
    _ ← set_options h cmdline
    api.start_image h

  -- The end of each main: Boot.Exit(0), and a shutdown if it comes back with an error.
  unfoldable pub exit_or_reset : M W End
  exit_or_reset = do
    e ← api.exit 0
    elim e [ none ↦ return returned | some _ ↦ do _ ← api.reset_system 2; return returned ]

  -- `unsafe.Slice` of bytes: a length below 0, or one that leads past the end of memory, panics.
  unfoldable pub slice_at : ℕ → Signed → M W (List ℕ)
  slice_at addr n =
      if (n.negative && ltb 0 n.size) || ltb (2 ^ 64 - addr) n.size
      then crash
      else observe (λ w. ok (api.load addr n.size w))

  -- The parts of the configuration: the bytes of the kernel at their fixed address, and the command
  -- line. A configuration of one line panics.
  unfoldable pub take_parts : List ℕ → Option (List ℕ) → M W (Signed × List ℕ × List ℕ)
  unfolding slice_at atoi
  take_parts first none = crash
  take_parts first (some cmdline) = do
    bytes ← slice_at 0x30000000 (atoi first)
    return (atoi first, bytes, cmdline)

  -- The start of main of efi-verify and of efiload.
  unfoldable pub read_config : M W (Signed × List ℕ × List ℕ)
  unfolding split_config take_parts
  read_config = do
    cfg ← observe (λ w. ok (api.load 0x20000000 10240 w))
    take_parts ((split_config cfg).0) ((split_config cfg).1)
