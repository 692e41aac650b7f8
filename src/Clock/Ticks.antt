-- ===== src/Clock/Ticks.antt =====
-- TicksFrequency and GetTime of pkg/uefi/clock.go. The counter and the frequency that the processor
-- reports are given.
use uki_stub.Common.{ℕ, ◌+◌, ◌-◌, ◌*◌, ◌%◌, ◌^◌, List, ltb, ◌==◌, if◌then◌else◌, replicate, get_or}
use uki_stub.Firmware.{Firmware, M, value, reference, buffer, left_in, return, ◌>>=◌}
use uki_stub.Guid.{codes}
use uki_stub.Status.{efi_success}
use uki_stub.Uefi.{field}
use uki_stub.Uefi.Tables.{boot_services}
use uki_stub.Uefi.Debug.{debug_print}
use uki_stub.Uefi.BootServices.{create_event, set_timer, wait_for_event, close_event}
use uki_stub.Uefi.RuntimeServices.{get_time}

-- The variables of the package that TicksFrequency changes.
pub record Globals : Type 0 where
  pub calculated_frequency : ℕ
  pub print_buf : List ℕ

abbrev pub evt_timer : ℕ
evt_timer = 0x80000000

abbrev pub tpl_callback : ℕ
tpl_callback = 8

abbrev pub timer_periodic : ℕ
timer_periodic = 1

module _ {W : Type 0} (fw : Firmware W) (st image : ℕ) where
  abbrev pub fail_with : List ℕ → ℕ → Globals → M W (ℕ × Globals)
  fail_with text status g = do
    buf ← debug_print fw st text status g.print_buf
    return (0, record g { print_buf = buf })

  -- The frequency counted over a quarter of a second of a timer: a difference in uint64, times 4.
  unfoldable pub calibrate : M W ℕ → ℕ → ℕ → Globals → M W (ℕ × Globals)
  calibrate ticks bs event g = do
    start ← ticks
    r ← set_timer fw bs event timer_periodic (250 * 10000)
    if r.status == efi_success
        then (do
          _ ← wait_for_event fw bs 1 (reference event) (reference 0)
          now ← ticks
          let diff = (now + (2 ^ 64 - start % 2 ^ 64)) % 2 ^ 64
          let frequency = diff * 4 % 2 ^ 64
          return (frequency, record g { calculated_frequency = frequency }))
        else fail_with (codes "GetTscFrequency) SetTimer Failed") r.status g

  -- The event is closed behind either end of the calibration; its close behind a panic is left out.
  unfoldable pub ticks_frequency : ℕ → M W ℕ → Globals → M W (ℕ × Globals)
  ticks_frequency tsc ticks g =
      if ltb 0 tsc
      then return (tsc, g)
      else if ltb 0 g.calculated_frequency
      then return (g.calculated_frequency, g)
      else do
        bs ← boot_services fw st image
        r ← create_event fw bs evt_timer tpl_callback (value 0) (value 0) (reference 0)
        if r.status == efi_success
            then (do
              let event = left_in r 0 0
              out ← calibrate ticks bs event g
              _ ← close_event fw bs event
              return out)
            else fail_with (codes "GetTscFrequency) CreateEvent Failed") r.status g

  -- GetTime: the bytes of the EFI_TIME, and the status.
  unfoldable pub get_time_status : M W (List ℕ × ℕ)
  unfolding field get_time
  get_time_status = do
    rt ← field fw st 88
    r ← get_time fw rt (buffer (replicate 16 0)) (value 0)
    return (get_or r.bufs 0 (replicate 16 0), r.status)
