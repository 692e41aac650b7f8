-- ===== src/Kernel/Recovery.antt =====
-- cmd/recovery/main.go. Its services and its shell are those of the package go-boot.
use uki_stub.Common.{
  ℕ, Option, List, [], ◌∷◌, ◌++◌, root_volume, opening, Failure, unfinished, ok, err, panic,
}
use uki_stub.Firmware.{M, ◌>>=◌, return, fail, attempt, crash}
use uki_stub.Guid.{codes}
use uki_stub.Kernel.{
  Services, at_stage, load_and_verify, start_kernel, kernel_path, End, exit_or_reset,
}

abbrev pub cmdline_path : List ℕ
cmdline_path = codes "\\EFI\\linux\\cmdline"

-- CmdLine
abbrev pub default_cmdline : List ℕ
default_cmdline =
    codes
      " initrd=\\initrd.img console=tty1 rdinit=/sbin/initos-initrd net.ifnames=0 panic=0 init=/bin/sh console=ttyS0 initos_sidecar=/dev/sdb initos_debug=1 "

-- `strings.Join(words, " ")`
unfoldable pub join : List (List ℕ) → List ℕ
join [] = []
join (x ∷ []) = x
join (x ∷ y ∷ ys) = x ++ 0x20 ∷ join (y ∷ ys)

-- The arguments of the command `recovery`: the path, and the words of the command line.
unfoldable pub arguments : List (List ℕ) → List ℕ × List ℕ
unfolding join
arguments [] = (kernel_path, [])
arguments (path ∷ words) = (path, join words)

module _ {W R F : Type 0} (api : Services W R F) (rounds : ℕ) where
  -- The command line, or if it is empty that of its file, or if that fails the default.
  unfoldable pub choose_cmdline : List ℕ → M W (List ℕ)
  unfolding load_and_verify
  choose_cmdline (c ∷ s) = return (c ∷ s)
  choose_cmdline [] = do
    t ← attempt (load_and_verify api rounds cmdline_path)
    elim t [
      | ok bytes ↦ return bytes
      | err unfinished ↦ fail unfinished
      | err _ ↦ return default_cmdline
      | panic ↦ crash
    ]

  unfoldable pub execute_kernel : List ℕ → List ℕ → M W (Option Failure)
  unfolding load_and_verify choose_cmdline
  execute_kernel path cmdline = do
    root ← at_stage root_volume api.root
    bytes ← at_stage opening (load_and_verify api rounds path)
    cmdline ← choose_cmdline cmdline
    start_kernel api root path bytes cmdline

  -- The function of the command `recovery`.
  unfoldable pub recovery : List (List ℕ) → M W (Option Failure)
  unfolding arguments
  recovery arg = let (path, cmdline) = arguments arg in execute_kernel path cmdline

  -- initGoBoot, for what SetWatchdogTimer(0) and the shell do.
  unfoldable pub init_go_boot : M W (Option Failure) → M W (Unit {0}) → M W End
  init_go_boot set_watchdog_timer shell = do _ ← set_watchdog_timer; _ ← shell; exit_or_reset api
