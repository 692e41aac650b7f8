-- ===== src/Kernel/Verify.antt =====
-- cmd/efi-verify/main.go. Its services are those of pkg/ueficore.
use uki_stub.Common.{ℕ, Option, none, some, List, root_volume, Failure, ok, err, panic}
use uki_stub.Firmware.{Firmware, M, ◌>>=◌, return, attempt, crash}
use uki_stub.Services.Boot
use uki_stub.Services.Files.{FileSystem, File}
use uki_stub.Services.Files
use uki_stub.Services.System
use uki_stub.Kernel.{
  Services, at_stage, load, start_kernel, kernel_path, End, exited, read_config, exit_or_reset,
}

-- The services of pkg/ueficore, behind the variable `x64.UEFI`; what the Go runtime does is given.
abbrev pub ueficore_services :
    {W : Type 0}
    → Firmware W
    → System.Services
    → (List ℕ → M W ℕ)
    → (ℕ → ℕ)
    → Services W FileSystem File
ueficore_services fw s pin room = record {
  root = Files.root fw s.boot;
  open_file = Files.fs_open fw;
  read = Files.read fw;
  load_image_mem = Files.load_image_mem fw s.boot;
  image_address = λ h. do
    i ← Boot.load_image_handle fw s.boot h
    return (i.addr, i.error);
  start_image = Boot.start_image fw s.boot;
  exit = Boot.exit fw s.boot;
  reset_system = System.reset_system fw s.runtime_base;
  pin = pin;
  room = room;
  load = fw.load;
  store = fw.store;
}

module _ {W R F : Type 0} (api : Services W R F) (rounds : ℕ) where
  -- executeKernel; `none` is a nil slice.
  unfoldable pub execute_kernel : List ℕ → Option (List ℕ) → List ℕ → M W (Option Failure)
  unfolding load
  execute_kernel path data' cmdline = do
    root ← at_stage root_volume api.root
    bytes ← elim data' [ some d ↦ return d | none ↦ load api rounds path ]
    start_kernel api root path bytes cmdline

  unfoldable pub main : M W End
  main = do
    (_, bytes, cmdline) ← read_config api
    t ← attempt (execute_kernel kernel_path (some bytes) cmdline)
    elim t [
      | ok none ↦ exit_or_reset api
      | ok (some _) ↦ return exited
      | err _ ↦ return exited
      | panic ↦ crash
    ]
