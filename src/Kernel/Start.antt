-- ===== src/Kernel/Start.antt =====
-- What executeKernel of the commands does to the image that it starts.
use uki_stub.Common.{
  Stage, root_volume, some, ℕ, ◌+◌, ◌*◌, ◌%◌, ◌^◌, ◌≤◌, ◌<◌, ◌≡◌, refl, ◌∙◌, ap, Option, none, List,
  arith, length, Failure, ok,
}
use uki_stub.Firmware.{M, return, ◌>>=◌, >>=-eq-ok}
use uki_stub.Wire.{le_bytes, fields, size_of}
use uki_stub.Wire.Splice.{splice, set_at, fields-splice, length-splice}
use uki_stub.Wire.RoundTrip.{length-le_bytes}
use uki_stub.Services.Boot.{LoadedImage, loaded_image_layout, loaded_image_of}
use uki_stub.Kernel.Verify.{execute_kernel}
use uki_stub.Kernel.{
  load, at_stage, Services, utf16_units, put, load_kernel, set_options, start_kernel,
}

-- The struct of a loaded image in the state.
abbrev pub image_in : {W R F : Type 0} → Services W R F → ℕ → W → LoadedImage
image_in api addr w = loaded_image_of (fields loaded_image_layout (api.load addr 104 w))

-- What the code relies on: a store changes the bytes that it is given and no others of a struct, and
-- neither a struct nor an address leads past the end of the memory.
pub record IsMachine {W R F : Type 0} (api : Services W R F) : Type 0 where
  pub length-load : (addr : ℕ) (w : W) → length (api.load addr 104 w) ≡ 104
  pub load-store :
      (addr off : ℕ) (bytes : List ℕ) (w : W)
      → addr + 104 ≤ 2 ^ 64
      → off + length bytes ≤ 104
      → api.load addr 104 (api.store (addr + off) bytes w) ≡ splice (api.load addr 104 w) off bytes
  pub image_end :
      (h addr : ℕ) (e : Option Failure) (w w' : W)
      → api.image_address h w ≡ (ok (addr, e), w')
      → addr + 104 ≤ 2 ^ 64
  pub pin_end :
      (units : List ℕ) (ptr : ℕ) (w w' : W) → api.pin units w ≡ (ok ptr, w') → ptr < 2 ^ 64

module _ {W R F : Type 0} (api : Services W R F) where
  module _ (machine : IsMachine api) (addr n ptr : ℕ) (w : W) (h : addr + 104 ≤ 2 ^ 64) where
    stored : W
    stored = api.store (addr + 56) (le_bytes 8 ptr) (api.store (addr + 48) (le_bytes 4 n) w)

    image_in-store :
        n < 2 ^ 32
        → ptr < 2 ^ 64
        → image_in api addr stored
          ≡ record (image_in api addr w) { load_options_size = n; load_options = ptr }
    unfolding stored fields size_of
    image_in-store hn hp =
        let buf = api.load addr 104 w in
        let size = machine.length-load addr w in
        let total : size_of loaded_image_layout ≡ 104 = refl in
        let l4 = length-le_bytes 4 n in
        let l8 = length-le_bytes 8 ptr in
        let once = splice buf 48 (le_bytes 4 n) in
        let e1 = machine.load-store addr 48 (le_bytes 4 n) w h (omega arith) in
        let e2 =
          machine.load-store addr 56 (le_bytes 8 ptr) (api.store (addr + 48) (le_bytes 4 n) w) h
            (omega arith) in
        let f1 = fields-splice 7 loaded_image_layout buf n (omega (arith, total, size)) hn in
        let f2 =
          fields-splice 9 loaded_image_layout once ptr
            (omega (arith, total, size, length-splice buf 48 (le_bytes 4 n) (omega arith))) hp in
        rw (e2, e1) (ap loaded_image_of (f2 ∙ ap (λ l. set_at 9 ptr l) f1))

  load_kernel_ok :
      (root : R) (path bytes : List ℕ) (w w' : W) (h : ℕ)
      → load_kernel api root path bytes w ≡ (ok h, w')
      → api.load_image_mem 0 root path bytes w ≡ (ok (h, none), w')
  unfolding load_kernel
  load_kernel_ok root path bytes w w' h e = ground (arith, e)

  set_options_ok :
      (h : ℕ) (cmdline : List ℕ) (w w' : W)
      → set_options api h cmdline w ≡ (ok tt, w')
      → (addr ptr : ℕ) × (e : Option Failure) × (w1 w2 : W) × (api.image_address h w
          ≡ (ok (addr, e), w1))
        × (api.pin (utf16_units cmdline) w1 ≡ (ok ptr, w2))
        × (w'
            ≡ api.store
                ((addr + 56) % 2 ^ 64)
                (le_bytes 8 ptr)
                (api.store ((addr + 48) % 2 ^ 64) (le_bytes 4 (length cmdline * 2 % 2 ^ 32)) w2))
  unfolding set_options put
  set_options_ok h cmdline w w' e =
      let rest : ℕ → ℕ → M W (Unit {0}) = λ addr ptr. do
        _ ← put api (addr + 48) 4 (length cmdline * 2 % 2 ^ 32)
        put api (addr + 56) 8 ptr
      in let pinned : ℕ → M W (Unit {0}) =
          λ addr. do ptr ← api.pin (utf16_units cmdline); rest addr ptr
        in let ((addr, e0), w1, found, e1) =
            >>=-eq-ok (api.image_address h) (λ p. pinned p.0) w e in
          let (ptr, w2, pins, e2) = >>=-eq-ok (api.pin (utf16_units cmdline)) (rest addr) w1 e1 in
          (addr, ptr, e0, w1, w2, found, pins, ground (arith, e2))

  pub set_options_lem :
      IsMachine api
      → (h : ℕ) (cmdline : List ℕ) (w w' : W) → set_options api h cmdline w ≡ (ok tt, w')
      → (addr ptr : ℕ) × (e : Option Failure) × (w1 w2 : W) × (api.image_address h w
          ≡ (ok (addr, e), w1))
        × (api.pin (utf16_units cmdline) w1 ≡ (ok ptr, w2))
        × (image_in api addr w' ≡ record (image_in api addr w2) {
          load_options_size = length cmdline * 2 % 2 ^ 32;
          load_options = ptr;
        })
  unfolding stored
  set_options_lem machine h cmdline w w' set =
      let (addr, ptr, e, w1, w2, found, pinned, same) = set_options_ok h cmdline w w' set in
      let fits = machine.image_end h addr e w w1 found in
      let a1 : (addr + 48) % 2 ^ 64 ≡ addr + 48 = omega arith in
      let a2 : (addr + 56) % 2 ^ 64 ≡ addr + 56 = omega arith in
      let same' = rw (a1, a2) at same in
      let patched =
        image_in-store machine addr (length cmdline * 2 % 2 ^ 32) ptr w2 fits (omega arith)
          (machine.pin_end (utf16_units cmdline) ptr w1 w2 pinned) in
      (addr, ptr, e, w1, w2, found, pinned, ap (image_in api addr) same' ∙ patched)

  start_kernel_options :
      IsMachine api
      → (root : R) (path bytes cmdline : List ℕ) (w w' : W) (e : Option Failure)
      → start_kernel api root path bytes cmdline w ≡ (ok e, w')
      → (h addr ptr : ℕ) × (w1 w2 w3 w4 : W) × (e' : Option Failure) × (api.load_image_mem 0 root
            path bytes w
          ≡ (ok (h, none), w1))
        × (api.image_address h w1 ≡ (ok (addr, e'), w2))
        × (api.pin (utf16_units cmdline) w2 ≡ (ok ptr, w3))
        × (api.start_image h w4 ≡ (ok e, w'))
        × (image_in api addr w4 ≡ record (image_in api addr w3) {
          load_options_size = length cmdline * 2 % 2 ^ 32;
          load_options = ptr;
        })
  unfolding start_kernel
  start_kernel_options machine root path bytes cmdline w w' e run =
      let (h, w1, loaded, e1) =
        >>=-eq-ok (load_kernel api root path bytes)
          (λ h. do _ ← set_options api h cmdline; api.start_image h) w run in
      let (_, w4, set, started) =
        >>=-eq-ok (set_options api h cmdline) (λ _. api.start_image h) w1 e1 in
      let (addr, ptr, e', w2, w3, found, pinned, patched) =
        set_options_lem machine h cmdline w1 w4 set in
      (
        h,
        addr,
        ptr,
        w1,
        w2,
        w3,
        w4,
        e',
        load_kernel_ok root path bytes w w1 h loaded,
        found,
        pinned,
        started,
        patched,
      )

  at_stage-ok :
      {A : Type 0} (stage : Stage) (m : M W A) (w w' : W) (a : A)
      → at_stage stage m w ≡ (ok a, w')
      → m w ≡ (ok a, w')
  at_stage-ok stage m w w' a e = ground (arith, e)

  -- The bytes of the kernel: those that are given, or those that load reads.
  abbrev pub kernel_bytes : ℕ → List ℕ → Option (List ℕ) → M W (List ℕ)
  kernel_bytes rounds path data' = elim data' [ some d ↦ return d | none ↦ load api rounds path ]

  -- If executeKernel of efi-verify hands back what StartImage said, then the image was loaded
  -- without an error from the bytes given or from those that load read, and when it was started its
  -- options held the length of the command line, twice its bytes, and the address of its UTF-16
  -- text, with every other field as it was.
  pub execute_kernel_options :
      IsMachine api
      → (rounds : ℕ) (path : List ℕ) (data' : Option (List ℕ)) (cmdline : List ℕ) (w w' : W)
        (e : Option Failure)
      → execute_kernel api rounds path data' cmdline w ≡ (ok e, w')
      → (root : R) × (bytes : List ℕ) × (h addr ptr : ℕ) × (v v1 w1 w2 w3 w4 : W) × (e' : Option
          Failure)
        × (api.root w ≡ (ok root, v))
        × (kernel_bytes rounds path data' v ≡ (ok bytes, v1))
        × (api.load_image_mem 0 root path bytes v1 ≡ (ok (h, none), w1))
        × (api.image_address h w1 ≡ (ok (addr, e'), w2))
        × (api.pin (utf16_units cmdline) w2 ≡ (ok ptr, w3))
        × (api.start_image h w4 ≡ (ok e, w'))
        × (image_in api addr w4 ≡ record (image_in api addr w3) {
          load_options_size = length cmdline * 2 % 2 ^ 32;
          load_options = ptr;
        })
  unfolding execute_kernel
  execute_kernel_options machine rounds path data' cmdline w w' e run =
      let (root, v, mounted, run1) =
        >>=-eq-ok (at_stage root_volume api.root)
          (λ root. do
            bytes ← kernel_bytes rounds path data'
            start_kernel api root path bytes cmdline)
          w run in
      let (bytes, v1, taken, run2) =
        >>=-eq-ok (kernel_bytes rounds path data')
          (λ bytes. start_kernel api root path bytes cmdline) v run1 in
      let (h, addr, ptr, w1, w2, w3, w4, e', loaded, found, pinned, started, patched) =
        start_kernel_options machine root path bytes cmdline v1 w' e run2 in
      let opened = at_stage-ok root_volume api.root w v root mounted in
      (
        root, bytes, h, addr, ptr, v, v1, w1, w2, w3, w4, e', opened, taken, loaded, found, pinned,
        started, patched,
      )
