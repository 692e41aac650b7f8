-- ===== src/Tests/Locks.antt =====
-- Two goroutines in the firmware.
use uki_stub.Common.{
  All, Outcome, ok, ℕ, suc, ◌≡◌, ◌↔◌, refl, false, arith, [], ◌==◌, if◌then◌else◌, err,
  region_error, replicate, length,
}
use uki_stub.Firmware.{call_service, Reply, Firmware, Request, at}
use uki_stub.Firmware.Lock.{
  calibrate_mutex, ticks, serve, core_mux, Route, core, direct, System, ask, lock, pass, enter,
  leave, unlock, Reach, start, later,
}
use uki_stub.Clock.Shared.{ask_frequency, Gave, one_frequency}
use uki_stub.Clock.Ticks.{Globals, ticks_frequency, calibrate}
use uki_stub.Uefi.{field, word}
use uki_stub.Uefi.Tables.{boot_services}
use uki_stub.Uefi.BootServices
use uki_stub.Wire.{le_value}
use uki_stub.Tests.Drivers.{timing, counter, no_frequency, calibrated}
use uki_stub.Firmware.Overlap.{Together, serialized, overlap_iff}
use uki_stub.Firmware.Sequential.{IsRun, sequential}

-- Each call counts one up, and replies with the count that it saw.
abbrev counting : Firmware ℕ
counting = record {
  call = λ q n. (record { status = n; refs = []; bufs = [] }, suc n);
  region = λ addr size count n. err region_error;
  load = λ addr size n. replicate size 0;
  store = λ addr bs n. n;
}

abbrev request : Request
request = record { fn = at 4096; args = [] }

abbrev both_core : ℕ → Route
both_core i = core

-- The states that are reached on a machine that starts at 0.
abbrev Reached : (ℕ → Route) → Type 0
Reached routes = (s : System ℕ Request (Outcome Reply)) × Reach (serve counting) routes 0 s

-- Goroutine 0 is in the firmware, and goroutine 1 waits for the mutex.
abbrev one_inside : Reached both_core
one_inside = (
  _,
  later
      (later (later (later start (ask 0 request refl)) (ask 1 request refl))
        (lock 0 core_mux request refl refl refl))
      (enter 0 request refl),
)

-- Both calls have ended, one behind the other.
abbrev both_ended : Reached both_core
unfolding call_service
both_ended = (
  _,
  later
      (later
        (later
          (later (later one_inside.1 (leave 0 request 0 refl))
            (unlock 0 core_mux (ok (record { status = 0; refs = []; bufs = [] })) refl refl))
          (lock 1 core_mux request refl refl refl))
        (enter 1 request refl))
      (leave 1 request 1 refl),
)

both_ended-machine : both_ended.0.machine ≡ 2
unfolding call_service
both_ended-machine = refl

sequential_example : IsRun (serve counting) 0 both_ended.0.history 2
unfolding call_service
sequential_example =
    sequential (serve counting) both_core core_mux (λ i. refl) 0 both_ended.0 both_ended.1

-- A stub of pkg/uefi takes no mutex.
abbrev mixed : ℕ → Route
mixed i = if i == 0 then core else direct

-- Both goroutines are in the firmware at once, and one of the two counts is lost.
abbrev overlapped : Reached mixed
unfolding call_service
overlapped = (
  _,
  later
      (later
        (later
          (later
            (later
              (later (later (later start (ask 0 request refl)) (ask 1 request refl))
                (lock 0 core_mux request refl refl refl))
              (enter 0 request refl))
            (pass 1 request refl refl))
          (enter 1 request refl))
        (leave 0 request 0 refl))
      (leave 1 request 0 refl),
)

overlap_iff_example :
    Together (serve counting) mixed 0 0 1 ↔ (serialized (mixed 0) (mixed 1) ≡ false)
overlap_iff_example = overlap_iff (serve counting) mixed 0 0 1 request (λ e. absurd (omega arith))

overlapped_lost : (overlapped.0.machine ≡ 1) × (length overlapped.0.history ≡ 2)
unfolding call_service
overlapped_lost = (refl, refl)

-- Two goroutines call TicksFrequency one behind the other, and only the first measures.
abbrev measured_once :
    (s : System (ℕ × Globals) (Unit {0}) (Outcome ℕ)) × Reach
      (ask_frequency timing 4096 7 0 counter)
      (λ i. ticks)
      (0, no_frequency)
      s
unfolding ticks_frequency calibrate boot_services field word le_value BootServices.create_event
    BootServices.set_timer BootServices.wait_for_event BootServices.close_event
measured_once =
    let first =
      later
        (later (later (later start (ask 0 tt refl)) (lock 0 calibrate_mutex tt refl refl refl))
          (enter 0 tt refl))
        (leave 0 tt (0, no_frequency) refl) in
    (
      _,
      later
          (later
            (later
              (later (later first (ask 1 tt refl))
                (unlock 0 calibrate_mutex (ok 8000000) refl refl))
              (lock 1 calibrate_mutex tt refl refl refl))
            (enter 1 tt refl))
          (leave 1 tt (4, calibrated) refl),
    )

one_frequency_example : (f : ℕ) × All (Gave f) measured_once.0.history
one_frequency_example =
    one_frequency timing 4096 7 0 counter (0, no_frequency) measured_once.0 measured_once.1
