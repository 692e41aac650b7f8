-- ===== src/Tests/Drivers.antt =====
-- The package uefi: its methods, the serial port, and the processor.
use Prim.Native.Nat.{bit_and}
use uki_stub.Common.{
  ℕ, suc, ◌+◌, ◌*◌, ◌/◌, ◌%◌, ◌^◌, ◌≡◌, refl, ◌-◌, inl, inr, Option, none, some, List, [], ◌∷◌,
  arith, false, replicate, length, ok, ltb, if◌then◌else◌, ◌==◌,
}
use uki_stub.Firmware.{
  M, return, Firmware, Entry, at, held, Request, Reply, value, reference, buffer, zeros, ◌>>=◌,
}
use uki_stub.Wire.{le_value}
use uki_stub.MemoryMap.{page_size}
use uki_stub.Services.Boot
use uki_stub.Services.Boot.{map_buffer_size}
use uki_stub.Services.System
use uki_stub.Uefi.{word, field}
use uki_stub.Uefi.BootServices
use uki_stub.Uefi.ProtocolServices
use uki_stub.Uefi.Tables.{boot_services}
use uki_stub.Uefi.Debug.{debug_line, debug_print}
use uki_stub.Uefi.DebugLine.{shown, read_hex, debug_print-shown}
use uki_stub.Uefi.TextOutput.{output_string}
use uki_stub.Utf16.{unit_bytes, until_nul}
use uki_stub.Clock.Ticks.{Globals, ticks_frequency, calibrate}
use uki_stub.Guid.{bytes, codes, hex_digit, hex_pad}
use uki_stub.Uefi.RuntimeServices
use uki_stub.Uefi.Reach.{status_of, found_of, map_of, boot-agrees, boot-Misplaced}
use uki_stub.Uefi.SerialIo
use uki_stub.Status.ErrorMap.{Error, ErrMap, err_map, err_map-IsValid, code_of}
use uki_stub.Serial.{SerialPort, read, efi_timeout}
use uki_stub.Serial.Reading.{Asked, Answers, at_once, after, read_answered}
use uki_stub.Cpu.{Registers, init, core_xtal_frequency, performance_counter_frequency}
use uki_stub.Cpu.Frequency.{IsNearest, performance_counter_frequency-IsNearest}

-- Each function is 16 bytes behind the slot that holds its address.
abbrev bytes_at : ℕ → ℕ → List ℕ
bytes_at addr size = (addr % 240 + 16) ∷ replicate 7 0

abbrev target : Entry → ℕ
target (at a) = le_value (bytes_at a 8)
target (held f) = f

-- Firmware that answers with the address of the function that is called, and counts the calls.
abbrev slots : Firmware ℕ
slots = record {
  call = λ q calls. (record { status = target q.fn; refs = []; bufs = [] }, suc calls);
  region = λ addr size count calls. ok (replicate count 0);
  load = λ addr size calls. bytes_at addr size;
  store = λ addr bs calls. calls;
}

abbrev boot : Boot.BootServices
boot = record { base = 4096; image_handle = 7 }

-- The table whose slots hold what the functions of the other spell.
abbrev shifted : Boot.BootServices
shifted = record { base = 4112; image_handle = 7 }

abbrev a_guid : List ℕ
a_guid = []

boot-Misplaced_example :
    (Boot.start_image slots shifted 5 0
      ≡ status_of slots (BootServices.start_image slots 4096 5 (value 0) (value 0)) 0)
    × (Boot.handle_protocol slots shifted 5 a_guid 0
        ≡ found_of slots
            (ProtocolServices.handle_protocol slots 4096 5 (buffer (bytes a_guid)) (reference 0))
            0)
    × (Boot.locate_protocol slots shifted a_guid 0
        ≡ found_of slots
            (ProtocolServices.locate_protocol slots 4096
              (buffer (bytes a_guid))
              (value 0)
              (reference 0))
            0)
    × (Boot.get_memory_map slots shifted 0
        ≡ map_of slots
            (BootServices.get_memory_map slots 4096
              (reference map_buffer_size)
              (buffer (zeros map_buffer_size))
              (reference 0)
              (reference 48)
              (reference 0))
            0)
unfolding word le_value
boot-Misplaced_example =
    boot-Misplaced slots boot shifted 5 a_guid 0 (λ a args w. refl) (omega arith) refl refl refl
      refl

boot-agrees_example :
    (Boot.free_pages slots boot 1 2 0
      ≡ status_of slots (BootServices.free_pages slots 4096 1 (2 / page_size)) 0)
    × (Boot.allocate_pages slots boot 1 2 3 4 0
        ≡ status_of slots
            (BootServices.allocate_pages slots 4096 1 2 (3 / page_size) (reference 4))
            0)
    × (Boot.exit slots boot 1 0 ≡ status_of slots (BootServices.exit slots 4096 7 1 0 (value 0)) 0)
    × (Boot.set_watchdog_timer slots boot 1 0
        ≡ status_of slots (BootServices.set_watchdog_timer slots 4096 1 0xba3e5e7a1 0 (value 0)) 0)
    × (System.reset_system slots 8192 1 0
        ≡ status_of slots (RuntimeServices.reset_system slots 8192 1 0 0 (value 0)) 0)
unfolding word le_value
boot-agrees_example =
    boot-agrees slots boot 8192 1 2 3 4 0 (λ a args w. refl) (omega arith) (omega arith)

-- A port that is late before its sixth call, and then gives two bytes.
abbrev answer : Request → ℕ → Reply
answer q calls =
    if ltb calls 6
    then record { status = efi_timeout; refs = 1 ∷ []; bufs = [] }
    else record { status = 0; refs = 2 ∷ []; bufs = (65 ∷ 66 ∷ []) ∷ [] }

abbrev line : Firmware ℕ
line = record {
  call = λ q calls. (answer q calls, suc calls);
  region = λ addr size count calls. ok (replicate count 0);
  load = λ addr size calls. replicate size 0;
  store = λ addr bs calls. calls;
}

abbrev port : SerialPort
port = record { addr = 4096; flow_control = false }

abbrev three : List ℕ
three = 0 ∷ 0 ∷ 0 ∷ []

abbrev late : Reply
late = record { status = efi_timeout; refs = 1 ∷ []; bufs = [] }

abbrev two_bytes : Reply
two_bytes = record { status = 0; refs = 2 ∷ []; bufs = (65 ∷ 66 ∷ []) ∷ [] }

-- The port is asked for the first time, and answers late.
Asked-first : Asked line port 0 three 0 1 late 3
unfolding SerialIo.get_control SerialIo.set_control SerialIo.read
Asked-first = record {
  has_room = omega arith;
  control = late;
  control_set = late;
  w1 = 1;
  w2 = 2;
  gets = refl;
  found = refl;
  sets = refl;
  answers = refl;
}

Asked-again : Asked line port 1 three 4 1 two_bytes 7
unfolding SerialIo.get_control SerialIo.set_control SerialIo.read
Asked-again = record {
  has_room = omega arith;
  control = late;
  control_set = late;
  w1 = 5;
  w2 = 6;
  gets = refl;
  found = refl;
  sets = refl;
  answers = refl;
}

-- The first round ends with EFI_TIMEOUT, although a byte came with it.
received_late : Answers line port 1 0 three 0 three two_bytes 7
unfolding SerialIo.get_control SerialIo.set_control SerialIo.read
received_late =
    after Asked-first (inr (inl refl)) clears
      (at_once Asked-again (omega arith, omega arith, omega arith))
  where
    clears : SerialIo.set_control line 4096 (bit_and 1 (2 ^ 32 - 1 - 2)) 3 ≡ (ok late, 4)
    clears = refl

read_answered_example :
    ((read line port 1 three err_map 0).0 ≡ ok none)
    × ((e : Option Error) × (errs' : ErrMap) × (read line port 5 three err_map 0
          ≡ (ok (some ((2, e, 65 ∷ 66 ∷ []), errs')), 7))
        × (code_of e ≡ none))
read_answered_example =
    read_answered line port 5 err_map err_map-IsValid received_late (omega arith)

-- Registers of a processor with a crystal of 24 MHz.
abbrev cpuid : ℕ → Registers
cpuid n =
    if n == 0x15
    then record { eax = 2; ebx = 176; ecx = 24000000; edx = 0 }
    else record { eax = 0x16; ebx = 0x756e6547; ecx = 0; edx = 0 }

performance_counter_frequency-IsNearest_example :
    IsNearest
      (performance_counter_frequency cpuid (init cpuid))
      (core_xtal_frequency (init cpuid) 24000000 * 176)
      2
unfolding init core_xtal_frequency
performance_counter_frequency-IsNearest_example =
    performance_counter_frequency-IsNearest cpuid (init cpuid) (omega arith) (omega arith)
      (omega arith) (omega arith) (omega arith) (omega arith) (omega arith)

frequency : performance_counter_frequency cpuid (init cpuid) ≡ 2112000000
unfolding init performance_counter_frequency
frequency = refl

debug_digits : debug_line (codes "x") 0x2a ≡ codes "x:000000000000002a\r\n\0"
unfolding debug_line hex_digit hex_pad
debug_digits = refl

debug_print-shown_example :
    (buf : List ℕ) × (debug_print slots 4096 (codes "x") 0x2a (replicate 256 0) 7
      ≡ (output_string slots 96 (buffer (unit_bytes buf)) >>= (λ _. return buf)) 7)
    × (length buf ≡ 256)
    × (until_nul buf ≡ shown (codes "x") 0x2a)
    × (read_hex 0 (hex_pad 16 0x2a) ≡ some 0x2a)
unfolding field word
debug_print-shown_example =
    debug_print-shown slots 4096 (codes "x") 0x2a (replicate 256 0) 96 7 7 (omega arith, tt)
      (omega arith) (omega arith) refl refl

fast :
    (ticks_frequency slots 4096 7 2112000000
      (return 0)
      (record { calculated_frequency = 0; print_buf = [] })
      0).0
    ≡ ok (2112000000, record { calculated_frequency = 0; print_buf = [] })
unfolding ticks_frequency
fast = refl

-- Firmware where each call succeeds and takes a million ticks.
abbrev pub timing : Firmware ℕ
timing = record {
  call = λ q calls. (record { status = 0; refs = 3 ∷ []; bufs = [] }, suc calls);
  region = λ addr size count calls. ok (replicate count 0);
  load = λ addr size calls. bytes_at addr size;
  store = λ addr bs calls. calls;
}

abbrev pub counter : M ℕ ℕ
counter calls = (ok (calls * 1000000), calls)

abbrev pub no_frequency : Globals
no_frequency = record { calculated_frequency = 0; print_buf = [] }

abbrev pub calibrated : Globals
calibrated = record { calculated_frequency = 8000000; print_buf = [] }

measured : ticks_frequency timing 4096 7 0 counter no_frequency 0 ≡ (ok (8000000, calibrated), 4)
unfolding ticks_frequency calibrate boot_services field word le_value BootServices.create_event
    BootServices.set_timer BootServices.wait_for_event BootServices.close_event
measured = refl
