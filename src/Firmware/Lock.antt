-- ===== src/Firmware/Lock.antt =====
-- Goroutines that call a function under a mutex: CallService of pkg/ueficore/uefi.go, callService of
-- pkg/uefi/call.go with the stubs of pkg/uefi, and TicksFrequency of pkg/uefi/clock.go, step by step
-- and interleaved in any order. A call is not atomic: it starts on the machine as it is, and leaves
-- what it made of that when it ends. Lock of sync.Mutex waits until the mutex is free.
use uki_stub.Common.{
  Outcome, ℕ, ◌≡◌, Bool, true, false, Option, none, some, List, [], ◌∷◌, ◌==◌, if◌then◌else◌,
}
use uki_stub.Firmware.{Firmware, Request, Reply, call_service}

-- The variables mux of the two packages, and calibrateMutex.
pub data Mutex : Type 0 where
  core_mux uefi_mux calibrate_mutex : Mutex

-- How a goroutine calls: the firmware through CallService, through UefiCall3, or through another of
-- the UefiCallN, or else TicksFrequency.
pub data Route : Type 0 where
  core three direct ticks : Route

abbrev pub mutex : Route → Option Mutex
mutex core = some core_mux
mutex three = some uefi_mux
mutex direct = none
mutex ticks = some calibrate_mutex

pub record Locks : Type 0 where
  pub core_locked : Bool
  pub uefi_locked : Bool
  pub calibrate_locked : Bool

abbrev pub is_locked : Mutex → Locks → Bool
is_locked core_mux l = l.core_locked
is_locked uefi_mux l = l.uefi_locked
is_locked calibrate_mutex l = l.calibrate_locked

abbrev pub set_lock : Mutex → Bool → Locks → Locks
set_lock core_mux b l = record l { core_locked = b }
set_lock uefi_mux b l = record l { uefi_locked = b }
set_lock calibrate_mutex b l = record l { calibrate_locked = b }

-- Where a goroutine is: it waits for the mutex, is past Lock, is in the call, which started on a
-- machine, or is back from it, in front of the deferred Unlock. `Q` is what is asked, `R` a reply.
pub data Pc (W Q R : Type 0) : Type 0 where
  idle : Pc W Q R
  waiting : Q → Pc W Q R
  locked : Q → Pc W Q R
  inside : Q → W → Pc W Q R
  leaving : R → Pc W Q R

-- The history of the calls, the last one first: who called, what, and the reply.
pub record System (W Q R : Type 0) : Type 0 where
  pub machine : W
  pub locks : Locks
  pub pc : ℕ → Pc W Q R
  pub history : List (ℕ × (Q × R))

abbrev pub update : {A : Type 0} → (ℕ → A) → ℕ → A → ℕ → A
update f i a j = if i == j then a else f j

-- CallService, for a request.
abbrev pub serve : {W : Type 0} → Firmware W → Request → W → Outcome Reply × W
serve fw q = call_service fw q.fn q.args

module _ {W Q R : Type 0} (call : Q → W → R × W) (routes : ℕ → Route) where
  -- A step of goroutine `i`, which stands at a given place.
  pub data Step (s : System W Q R) : System W Q R → Type 0 where
    ask : (i : ℕ) (q : Q) → s.pc i ≡ idle → Step s (record s { pc = update s.pc i (waiting q) })
    lock :
        (i : ℕ) (m : Mutex) (q : Q)
        → s.pc i ≡ waiting q
        → mutex (routes i) ≡ some m
        → is_locked m s.locks ≡ false
        → Step s (record s { locks = set_lock m true s.locks; pc = update s.pc i (locked q) })
    pass :
        (i : ℕ) (q : Q)
        → s.pc i ≡ waiting q
        → mutex (routes i) ≡ none
        → Step s (record s { pc = update s.pc i (locked q) })
    enter :
        (i : ℕ) (q : Q)
        → s.pc i ≡ locked q
        → Step s (record s { pc = update s.pc i (inside q s.machine) })
    leave :
        (i : ℕ) (q : Q) (w : W)
        → s.pc i ≡ inside q w
        → Step s (record s {
          machine = (call q w).1;
          pc = update s.pc i (leaving (call q w).0);
          history = (i, (q, (call q w).0)) ∷ s.history;
        })
    unlock :
        (i : ℕ) (m : Mutex) (r : R)
        → s.pc i ≡ leaving r
        → mutex (routes i) ≡ some m
        → Step s (record s { locks = set_lock m false s.locks; pc = update s.pc i idle })
    done :
        (i : ℕ) (r : R)
        → s.pc i ≡ leaving r
        → mutex (routes i) ≡ none
        → Step s (record s { pc = update s.pc i idle })

-- All goroutines are idle, and all mutexes are free.
abbrev pub at_rest : {W Q R : Type 0} → W → System W Q R
at_rest w = record {
  machine = w;
  locks = record { core_locked = false; uefi_locked = false; calibrate_locked = false };
  pc = λ _. idle;
  history = [];
}

pub data Reach {W Q R : Type 0} (call : Q → W → R × W) (routes : ℕ → Route) (w : W)
    : System W Q R → Type 0 where
  start : Reach call routes w (at_rest w)
  later :
      {s t : System W Q R} → Reach call routes w s → Step call routes s t → Reach call routes w t
