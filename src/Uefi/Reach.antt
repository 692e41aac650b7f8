-- ===== src/Uefi/Reach.antt =====
-- Which functions the methods of pkg/uefi reach, beside those that pkg/ueficore reaches.
use uki_stub.Common.{
  ℕ, ◌+◌, ◌%◌, ◌^◌, ◌/◌, ◌≡◌, ◌≢◌, refl, ◌||◌, Option, List, [], ◌∷◌, ◌==◌, if◌then◌else◌, length,
  arith, ==_ne, Bool-cases, inl, inr, true, false, Failure,
}
use uki_stub.Firmware.{
  Firmware, M, Arg, Reply, at, held, value, reference, buffer, left_in, zeros, lift, return,
  call_service, call_status, ◌>>=◌,
}
use uki_stub.Status.{parse_status}
use uki_stub.MemoryMap.{page_size}
use uki_stub.Uefi.{word, field, call_method}
use uki_stub.Uefi.BootServices
use uki_stub.Uefi.ProtocolServices
use uki_stub.Uefi.RuntimeServices
use uki_stub.Guid.{bytes}
use uki_stub.Services.Boot
use uki_stub.Services.Boot.{BootServices, MemoryMap, map_of_reply, map_buffer_size}
use uki_stub.Services.System

-- What callFn does with the address of a slot: it calls the function whose address stands there.
abbrev pub ReadsSlots : {W : Type 0} → Firmware W → Type 0
ReadsSlots {W} fw =
    (a : ℕ) (args : List Arg) (w : W)
    → fw.call (record { fn = at a; args = args }) w
      ≡ fw.call (record { fn = held (word fw a w); args = args }) w

module _ {W : Type 0} (fw : Firmware W) where
  -- The function that a method calls whose field holds `fn`.
  reached : ℕ → ℕ → W → ℕ
  reached n fn w = if n == 3 || n == 5 then word fw fn w else fn

  -- A method calls the function in its field, but one of three or of five arguments calls what the
  -- first bytes of that function spell, if callFn reads slots.
  method_reaches :
      (p offset : ℕ) (args : List Arg) (w : W)
      → ReadsSlots fw
      → p ≢ 0
      → call_method fw p offset args w
        ≡ call_service fw
            (held (reached (length args) (word fw ((p + offset) % 2 ^ 64) w) w))
            args
            w
  unfolding call_method field reached call_service
  method_reaches p offset args w reads h =
      rw (==_ne p 0 h) (elim (Bool-cases (length args == 3 || length args == 5)) [
        | inl slot ↦ rw slot (ground (arith, reads (word fw ((p + offset) % 2 ^ 64) w) args w))
        | inr own ↦ rw own refl
      ])

  abbrev pub status_of : M W Reply → M W (Option Failure)
  status_of m = do r ← m; return (parse_status r.status)

  call-agrees :
      (p offset : ℕ) (args : List Arg) (w : W)
      → ReadsSlots fw
      → p ≢ 0
      → (length args == 3 || length args == 5) ≡ false
      → call_status fw (at ((p + offset) % 2 ^ 64)) args w
        ≡ status_of (call_method fw p offset args) w
  unfolding call_status call_service reached
  call-agrees p offset args w reads h own =
      let reach = rw own at (method_reaches p offset args w reads h) in
      ground (arith, reach, reads ((p + offset) % 2 ^ 64) args w)

  -- The services of two and of four arguments: the library ueficore, which hands the address of a
  -- slot to callFn, and the package uefi, which calls what it reads there, leave the same status
  -- and machine, if callFn reads slots and the tables are not at address 0.
  pub boot-agrees :
      (s : BootServices) (runtime a b c d : ℕ) (w : W)
      → ReadsSlots fw
      → s.base ≢ 0
      → runtime ≢ 0
      → (Boot.free_pages fw s a b w
          ≡ status_of (BootServices.free_pages fw s.base a (b / page_size)) w)
        × (Boot.allocate_pages fw s a b c d w
            ≡ status_of (BootServices.allocate_pages fw s.base a b (c / page_size) (reference d)) w)
        × (Boot.exit fw s a w
            ≡ status_of (BootServices.exit fw s.base s.image_handle a 0 (value 0)) w)
        × (Boot.set_watchdog_timer fw s a w
            ≡ status_of (BootServices.set_watchdog_timer fw s.base a 0xba3e5e7a1 0 (value 0)) w)
        × (System.reset_system fw runtime a w
            ≡ status_of (RuntimeServices.reset_system fw runtime a 0 0 (value 0)) w)
  unfolding Boot.free_pages Boot.allocate_pages Boot.exit Boot.set_watchdog_timer
      System.reset_system BootServices.free_pages BootServices.allocate_pages BootServices.exit
      BootServices.set_watchdog_timer RuntimeServices.reset_system
  boot-agrees s runtime a b c d w reads h k = (
    call-agrees s.base 0x30 _ w reads h refl,
    call-agrees s.base 0x28 _ w reads h refl,
    call-agrees s.base 0xd8 _ w reads h refl,
    call-agrees s.base 0x100 _ w reads h refl,
    call-agrees runtime 0x68 _ w reads k refl,
  )

  -- The slot of one table holds what the first bytes of the function in that slot of another spell.
  abbrev pub Misplaced : BootServices → BootServices → ℕ → W → Type 0
  Misplaced s s' o w =
      word fw ((s'.base + o) % 2 ^ 64) w ≡ word fw (word fw ((s.base + o) % 2 ^ 64) w) w

  abbrev pub found_of : M W Reply → M W (ℕ × Option Failure)
  found_of m = do r ← m; return (left_in r 0 0, parse_status r.status)

  abbrev pub map_of : M W Reply → M W (MemoryMap × Option Failure)
  map_of m = do r ← m; lift (map_of_reply r)

  call_service-Misplaced :
      (s s' : BootServices) (o : ℕ) (args : List Arg) (w : W)
      → ReadsSlots fw
      → s.base ≢ 0
      → (length args == 3 || length args == 5) ≡ true
      → Misplaced s s' o w
      → call_method fw s.base o args w ≡ call_service fw (at ((s'.base + o) % 2 ^ 64)) args w
  unfolding call_service reached
  call_service-Misplaced s s' o args w reads h slot same =
      let reach = rw slot at (method_reaches s.base o args w reads h) in
      ground (arith, reach, same, reads ((s'.base + o) % 2 ^ 64) args w)

  -- The services of three and of five arguments: on a table of boot services that is not at address
  -- 0, the package uefi does what ueficore does on a table whose slots hold, in place of the
  -- functions, what the first bytes of the functions spell, if callFn reads slots. This is stated
  -- for StartImage, HandleProtocol, LocateProtocol and GetMemoryMap.
  pub boot-Misplaced :
      (s s' : BootServices) (a : ℕ) (guid : List ℕ) (w : W)
      → ReadsSlots fw
      → s.base ≢ 0
      → Misplaced s s' 0xd0 w
      → Misplaced s s' 0x98 w
      → Misplaced s s' 0x140 w
      → Misplaced s s' 0x38 w
      → (Boot.start_image fw s' a w
          ≡ status_of (BootServices.start_image fw s.base a (value 0) (value 0)) w)
        × (Boot.handle_protocol fw s' a guid w
            ≡ found_of
                (ProtocolServices.handle_protocol fw s.base a (buffer (bytes guid)) (reference 0))
                w)
        × (Boot.locate_protocol fw s' guid w
            ≡ found_of
                (ProtocolServices.locate_protocol fw s.base
                  (buffer (bytes guid))
                  (value 0)
                  (reference 0))
                w)
        × (Boot.get_memory_map fw s' w
            ≡ map_of
                (BootServices.get_memory_map fw s.base
                  (reference map_buffer_size)
                  (buffer (zeros map_buffer_size))
                  (reference 0)
                  (reference 48)
                  (reference 0))
                w)
  unfolding Boot.start_image Boot.handle_protocol Boot.locate_protocol Boot.get_memory_map
      BootServices.start_image BootServices.get_memory_map ProtocolServices.handle_protocol
      ProtocolServices.locate_protocol call_status
  boot-Misplaced s s' a guid w reads h image handle protocol map = (
    ground (
      arith,
      call_service-Misplaced s s' 0xd0 (value a ∷ value 0 ∷ value 0 ∷ []) w reads h refl image,
    ),
    ground (
      arith,
      call_service-Misplaced s s' 0x98 (value a ∷ buffer (bytes guid) ∷ reference 0 ∷ []) w reads h
          refl handle,
    ),
    ground (
      arith,
      call_service-Misplaced s s' 0x140 (buffer (bytes guid) ∷ value 0 ∷ reference 0 ∷ []) w reads h
          refl protocol,
    ),
    ground (
      arith,
      call_service-Misplaced s s' 0x38
          (reference map_buffer_size
            ∷ buffer (zeros map_buffer_size)
            ∷ reference 0
            ∷ reference 48
            ∷ reference 0
            ∷ [])
          w reads h refl map,
    ),
  )
