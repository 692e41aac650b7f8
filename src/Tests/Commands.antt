-- ===== src/Tests/Commands.antt =====
-- The commands on a machine of bytes, with services that always succeed.
use uki_stub.Common.{
  ℕ, ◌+◌, ◌≡◌, refl, Option, none, some, List, [], ◌∷◌, arith, ◌==◌, if◌then◌else◌, ok, Failure,
  eof,
}
use uki_stub.Firmware.{Firmware, M, return}
use uki_stub.Tests.Ram
use uki_stub.Wire.{le_bytes}
use uki_stub.Guid.{codes}
use uki_stub.Kernel.{
  Services, returned, utf16_units, load, load_and_verify, read_config, start_kernel, exit_or_reset,
}
use uki_stub.Kernel.Verify
use uki_stub.Kernel.Variables.{vars, first_cursor}
use uki_stub.Uefi.{field}
use uki_stub.Uefi.RuntimeServices.{get_next_variable_name}
use uki_stub.Uefi.Enumerate.{efi_not_found}
use uki_stub.Kernel.Recovery
use uki_stub.Kernel.Start.{image_in, IsMachine, execute_kernel_options, kernel_bytes}
use uki_stub.Kernel.Loading.{Serves, last, more, load-Serves}
use uki_stub.Kernel.Boot.{ended, main-starts}

-- The machine: its memory.
abbrev W : Type 0
W = Ram.Memory

-- A file of three bytes: two, and one with the end of the file. The byte at address 0 tells whether
-- the first two were read.
abbrev read_three : Unit {0} → List ℕ → M W (ℕ × List ℕ × Option Failure)
read_three f buf m =
    if m 0 == 0
    then (ok (2, 65 ∷ 66 ∷ [], none), Ram.set 0 1 m)
    else (ok (1, 67 ∷ 0 ∷ [], some eof), m)

abbrev api : Services W (Unit {0}) (Unit {0})
api = record {
  root = return tt;
  open_file = λ root path. return tt;
  read = read_three;
  load_image_mem = λ boot root path bytes. return (7, none);
  image_address = λ h. return (4096, none);
  start_image = λ h. return none;
  exit = λ code. return none;
  reset_system = λ kind. return none;
  pin = λ units. return 8192;
  room = λ n. 512;
  load = Ram.load;
  store = Ram.store;
}

abbrev blank : W
blank = λ x. 0

three_bytes : Serves api tt 1 [] blank (65 ∷ 66 ∷ 67 ∷ []) none (Ram.set 0 1 blank)
three_bytes =
    more {n = 2} {b = []} {buf = 65 ∷ 66 ∷ []} {w = blank} {w1 = Ram.set 0 1 blank} refl
      (omega arith)
      (last {b = 65 ∷ 66 ∷ []} {buf = 67 ∷ 0 ∷ []} {n = 1} {e = eof} {w = Ram.set 0 1 blank} refl
        (omega arith))

load-Serves_example :
    (load api 5 (codes "k") blank ≡ (ok (65 ∷ 66 ∷ 67 ∷ []), Ram.set 0 1 blank))
    × (load_and_verify api 5 (codes "k") blank ≡ (ok (65 ∷ 66 ∷ 67 ∷ []), Ram.set 0 1 blank))
load-Serves_example =
    load-Serves api 5 (codes "k") tt tt 1 (65 ∷ 66 ∷ 67 ∷ []) none blank blank blank
      (Ram.set 0 1 blank) refl refl three_bytes (omega arith)

machine : IsMachine api
machine = record {
  length-load = λ addr m. Ram.length-load addr 104 m;
  load-store = λ addr off bytes m h fits. Ram.load-store addr 104 off bytes m fits;
  image_end = λ h addr e m m' found. ground (arith, found);
  pin_end = λ units ptr m m' found. ground (arith, found);
}

abbrev optioned : W
optioned =
    Ram.store (4096 + 56) (le_bytes 8 8192)
      (Ram.store (4096 + 48) (le_bytes 4 10) (Ram.set 0 1 blank))

runs : Verify.execute_kernel api 5 (codes "k") none (codes "quiet") blank ≡ (ok none, optioned)
unfolding Verify.execute_kernel start_kernel load
runs = refl

execute_kernel_options_example :
    (root : Unit {0}) × (bytes : List ℕ) × (h addr ptr : ℕ) × (v v1 w1 w2 w3 w4 : W) × (e : Option
      Failure)
    × (api.root blank ≡ (ok root, v))
    × (kernel_bytes api 5 (codes "k") none v ≡ (ok bytes, v1))
    × (api.load_image_mem 0 root (codes "k") bytes v1 ≡ (ok (h, none), w1))
    × (api.image_address h w1 ≡ (ok (addr, e), w2))
    × (api.pin (utf16_units (codes "quiet")) w2 ≡ (ok ptr, w3))
    × (api.start_image h w4 ≡ (ok none, optioned))
    × (image_in api addr w4
        ≡ record (image_in api addr w3) { load_options_size = 10; load_options = ptr })
execute_kernel_options_example =
    execute_kernel_options api machine 5 (codes "k") none (codes "quiet") blank optioned none runs

-- A configuration at its address.
abbrev configured : W
configured = Ram.store 0x20000000 (codes "12\nquiet\n") blank

main-starts_example :
    (w : W) × (image_in api 4096 w
      ≡ record (image_in api 4096 configured) { load_options_size = 10; load_options = 8192 })
    × (Verify.main api 1 configured ≡ ended api (api.start_image 7 w))
main-starts_example =
    main-starts api machine 1 configured configured configured configured configured (codes "12")
      (codes "quiet") (Ram.load (0x20000000 + 9) 10231 configured) tt 7 4096 8192 none refl (cc)
      (omega arith) (omega arith) (omega arith) refl refl refl refl

-- A kernel of 12 bytes is started, and then main ends.
verified : (Verify.main api 1 configured).0 ≡ ok returned
unfolding Verify.main read_config Verify.execute_kernel start_kernel exit_or_reset
verified = refl

words : Recovery.join (codes "a" ∷ codes "b" ∷ []) ≡ codes "a b"
unfolding Recovery.join
words = refl

-- Firmware with no variables: the listing ends at the first answer.
abbrev no_variables : Firmware W
no_variables = record {
  call = λ q m. (record { status = efi_not_found; refs = []; bufs = [] }, m);
  region = λ addr size count m. ok (Ram.load addr count m);
  load = Ram.load;
  store = Ram.store;
}

listing : (vars no_variables 4096 1 first_cursor (Ram.set (4096 + 88) 1 blank)).0 ≡ ok []
unfolding vars field get_next_variable_name
listing = refl
