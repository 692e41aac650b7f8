-- ===== src/Kernel/Efiload.antt =====
-- cmd/efiload/main.go. Its services are those of the package go-boot.
use uki_stub.Common.{
  ℕ, Option, none, some, List, root_volume, Failure, ok, err, panic, ltb, if◌then◌else◌,
}
use uki_stub.Firmware.{M, ◌>>=◌, return, attempt, crash}
use uki_stub.Kernel.Variables.{Variable}
use uki_stub.Kernel.{
  Services, at_stage, load_and_verify, start_kernel, kernel_path, End, exited, read_config,
  exit_or_reset,
}

module _ {W R F : Type 0} (api : Services W R F) (rounds : ℕ) where
  -- executeKernel; `none` is a nil slice. loadAndVerify hands back no nil slice without an error.
  unfoldable pub execute_kernel : List ℕ → Option (List ℕ) → List ℕ → M W (Option Failure)
  unfolding load_and_verify
  execute_kernel path data' cmdline = do
    root ← at_stage root_volume api.root
    bytes ← elim data' [ some d ↦ return d | none ↦ load_and_verify api rounds path ]
    start_kernel api root path bytes cmdline

  -- main, for what vars does. `kerData[0:16]`, which is printed, panics for a shorter
  -- kernel. Boot.Exit is called twice.
  unfoldable pub main : M W (List Variable) → M W End
  main vars = do
    _ ← vars
    (n, bytes, cmdline) ← read_config api
    if ltb n.size 16 then crash else do
      t ← attempt (execute_kernel kernel_path (some bytes) cmdline)
      elim t [
        | ok none ↦ do _ ← exit_or_reset api; exit_or_reset api
        | ok (some _) ↦ return exited
        | err _ ↦ return exited
        | panic ↦ crash
      ]
