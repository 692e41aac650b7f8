-- ===== src/Kernel/Boot.antt =====
-- main of cmd/efi-verify, from the configuration to the start of the kernel.
use uki_stub.Common.{
  ℕ, ◌+◌, ◌*◌, ◌%◌, ◌^◌, ◌<◌, ◌≡◌, ◌≢◌, sym, ap, ◌∙◌, Option, none, some, List, [], ◌∷◌, ◌++◌, All,
  arith, length, Failure, ok, err, panic, Outcome, false,
}
use uki_stub.Firmware.{M, ◌>>=◌}
use uki_stub.Kernel.{
  Services, utf16_units, put, load_kernel, set_options, start_kernel, kernel_path, End, exited,
  read_config, exit_or_reset,
}
use uki_stub.Kernel.Config.{Signed}
use uki_stub.Kernel.Start.{image_in, IsMachine, set_options_lem}
use uki_stub.Kernel.Parsing.{IsDigit, value, read_config-lines}
use uki_stub.Kernel.Verify.{execute_kernel, main}

ok-inj :
    {A W : Type 0} {a b : A} {w v : W}
    → ◌≡◌ {A = Outcome A × W} (ok a, w) (ok b, v)
    → (a ≡ b) × (w ≡ v)
ok-inj e = (cc, cc)

module _ {W R F : Type 0} (api : Services W R F) where
  -- The end of main behind StartImage: the firmware is asked to exit, or the program exits.
  abbrev pub ended : Outcome (Option Failure) × W → Outcome End × W
  ended (ok none, w) = exit_or_reset api w
  ended (ok (some e), w) = (ok exited, w)
  ended (err e, w) = (ok exited, w)
  ended (panic, w) = (panic, w)

  -- The machine with the options written.
  abbrev with_options : ℕ → ℕ → List ℕ → W → W
  with_options addr ptr cmdline w =
      let write : M W (Unit {0}) = do
        _ ← put api (addr + 48) 4 (length cmdline * 2 % 2 ^ 32)
        put api (addr + 56) 8 ptr
      in (write w).1

  set_options_run :
      (h : ℕ) (cmdline : List ℕ) (w w1 w2 : W) (addr ptr : ℕ) (e : Option Failure)
      → api.image_address h w ≡ (ok (addr, e), w1)
      → api.pin (utf16_units cmdline) w1 ≡ (ok ptr, w2)
      → set_options api h cmdline w ≡ (ok tt, with_options addr ptr cmdline w2)
  unfolding set_options put
  set_options_run h cmdline w w1 w2 addr ptr e found pinned = ground (arith, found, pinned)

  -- The options of the image that is started.
  options_set :
      IsMachine api
      → (h : ℕ) (cmdline : List ℕ) (w w1 w2 : W) (addr ptr : ℕ) (e : Option Failure)
      → api.image_address h w ≡ (ok (addr, e), w1)
      → api.pin (utf16_units cmdline) w1 ≡ (ok ptr, w2)
      → (w' : W) × (set_options api h cmdline w ≡ (ok tt, w'))
        × (image_in api addr w' ≡ record (image_in api addr w2) {
          load_options_size = length cmdline * 2 % 2 ^ 32;
          load_options = ptr;
        })
  options_set machine h cmdline w w1 w2 addr ptr e found pinned =
      let w' = with_options addr ptr cmdline w2 in
      let set = set_options_run h cmdline w w1 w2 addr ptr e found pinned in
      let (addr', ptr', e', v1, v2, found', pinned', patched) =
        set_options_lem api machine h cmdline w w' set in
      let (a, v) = ok-inj (sym found' ∙ found) in
      let (p, u) = ok-inj (sym (rw v at pinned') ∙ pinned) in
      (w', set, rw (ap (λ q. q.0) a, p, u) at patched)

  start_kernel_run :
      (root : R) (path bytes cmdline : List ℕ) (v w1 w4 : W) (h : ℕ)
      → api.load_image_mem 0 root path bytes v ≡ (ok (h, none), w1)
      → set_options api h cmdline w1 ≡ (ok tt, w4)
      → start_kernel api root path bytes cmdline v ≡ api.start_image h w4
  unfolding start_kernel load_kernel
  start_kernel_run root path bytes cmdline v w1 w4 h loaded set = ground (arith, loaded, set)

  execute_kernel_run :
      (rounds : ℕ) (root : R) (path bytes cmdline : List ℕ) (w v : W)
      → api.root w ≡ (ok root, v)
      → execute_kernel api rounds path (some bytes) cmdline w
        ≡ start_kernel api root path bytes cmdline v
  unfolding execute_kernel
  execute_kernel_run rounds root path bytes cmdline w v opened = ground (arith, opened)

  main_run :
      (rounds : ℕ) (n : Signed) (bytes cmdline : List ℕ) (w : W) (t : Outcome (Option Failure) × W)
      → read_config api w ≡ (ok (n, bytes, cmdline), w)
      → execute_kernel api rounds kernel_path (some bytes) cmdline w ≡ t
      → main api rounds w ≡ ended t
  unfolding main
  main_run rounds n bytes cmdline w (ok none, v) read run = ground (arith, read, run)
  main_run rounds n bytes cmdline w (ok (some f), v) read run = ground (arith, read, run)
  main_run rounds n bytes cmdline w (err f, v) read run = ground (arith, read, run)
  main_run rounds n bytes cmdline w (panic, v) read run = ground (arith, read, run)

  -- On a configuration of decimal digits for a number below 2 ^ 63, a command line and anything
  -- else, each on its own line, if the root volume can be opened, LoadImageMem takes the bytes of
  -- the kernel, as many as the digits say, the image has an address and the runtime keeps the text
  -- of the command line, then main starts that image with the address of the text in its options,
  -- twice the bytes of the command line, in uint32, as its size, and every other field as it was.
  -- Behind it, main asks the firmware to exit if StartImage reports no error, and else exits.
  pub main-starts :
      IsMachine api
      → (rounds : ℕ) (w v w1 w2 w3 : W) (ds cmdline rest : List ℕ) (root : R) (h addr ptr : ℕ)
        (e : Option Failure)
      → api.load 0x20000000 10240 w ≡ ds ++ 10 ∷ (cmdline ++ 10 ∷ rest)
      → ds ≢ []
      → All IsDigit ds
      → All (λ b. b ≢ 10) cmdline
      → value ds 0 < 2 ^ 63
      → api.root w ≡ (ok root, v)
      → api.load_image_mem 0 root kernel_path (api.load 0x30000000 (value ds 0) w) v
        ≡ (ok (h, none), w1)
      → api.image_address h w1 ≡ (ok (addr, e), w2)
      → api.pin (utf16_units cmdline) w2 ≡ (ok ptr, w3)
      → (w4 : W) × (image_in api addr w4 ≡ record (image_in api addr w3) {
        load_options_size = length cmdline * 2 % 2 ^ 32;
        load_options = ptr;
      })
        × (main api rounds w ≡ ended (api.start_image h w4))
  main-starts machine rounds w v w1 w2 w3 ds cmdline rest root h addr ptr e config some' hd hc fits
        opened loaded found pinned =
      let (w4, set, patched) = options_set machine h cmdline w1 w2 w3 addr ptr e found pinned in
      let read = read_config-lines api w ds cmdline rest config some' hd hc fits in
      let n : Signed = record { negative = false; size = value ds 0 } in
      let bytes = api.load 0x30000000 (value ds 0) w in
      let run = start_kernel_run root kernel_path bytes cmdline v w1 w4 h loaded set in
      let executed = execute_kernel_run rounds root kernel_path bytes cmdline w v opened in
      (w4, patched, main_run rounds n bytes cmdline w (api.start_image h w4) read (executed ∙ run))
