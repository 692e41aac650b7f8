-- ===== src/Firmware/Overlap.antt =====
-- Which goroutines can be in a call of the firmware at the same time: the mutex of pkg/ueficore/uefi.go
-- and those of pkg/uefi do not know of one another, and most stubs of pkg/uefi take none.
use uki_stub.Common.{
  ℕ, ◌≡◌, ◌≢◌, ◌↔◌, refl, sym, ◌∙◌, Bool, true, false, some, arith, Option-cases, Bool-cases, inl,
  inr,
}
use uki_stub.Firmware.Lock.{
  Mutex, core_mux, uefi_mux, calibrate_mutex, Route, core, three, direct, ticks, mutex, is_locked,
  Pc, idle, waiting, locked, inside, leaving, System, ask, lock, pass, enter, Reach, start, later,
  at_rest, update,
}
use uki_stub.Firmware.Exclusion.{
  holds, shares, shares_self, owns, exclusion, is_locked_other, update_self,
}

abbrev pub in_call : {W Q R : Type 0} → Pc W Q R → Bool
in_call (inside q w) = true
in_call idle = false
in_call (waiting q) = false
in_call (locked q) = false
in_call (leaving r) = false

-- The routes whose calls wait for one another: CallService for CallService, UefiCall3 for UefiCall3,
-- and TicksFrequency for TicksFrequency.
abbrev pub serialized : Route → Route → Bool
serialized core core = true
serialized three three = true
serialized ticks ticks = true
serialized _ _ = false

serialized-mutex :
    (a b : Route) → serialized a b ≡ true → (m : Mutex) × (mutex a ≡ some m) × (mutex b ≡ some m)
serialized-mutex core core h = (core_mux, refl, refl)
serialized-mutex three three h = (uefi_mux, refl, refl)
serialized-mutex ticks ticks h = (calibrate_mutex, refl, refl)
serialized-mutex core three h = absurd (ground arith)
serialized-mutex core direct h = absurd (ground arith)
serialized-mutex core ticks h = absurd (ground arith)
serialized-mutex three core h = absurd (ground arith)
serialized-mutex three direct h = absurd (ground arith)
serialized-mutex three ticks h = absurd (ground arith)
serialized-mutex direct b h = absurd (ground arith)
serialized-mutex ticks core h = absurd (ground arith)
serialized-mutex ticks three h = absurd (ground arith)
serialized-mutex ticks direct h = absurd (ground arith)

unshared :
    (a b : Route) (m : Mutex)
    → serialized a b ≡ false
    → mutex b ≡ some m
    → shares (mutex a) m ≡ false
unshared a b m h e = ground arith

holds-in_call : {W Q R : Type 0} (p : Pc W Q R) → in_call p ≡ true → holds p ≡ true
holds-in_call p h = ground arith

rest_free :
    (W Q R : Type 0) (w : W) (m : Mutex)
    → is_locked m (at_rest {W = W} {Q = Q} {R = R} w).locks ≡ false
rest_free W Q R w core_mux = refl
rest_free W Q R w uefi_mux = refl
rest_free W Q R w calibrate_mutex = refl

module _ {W Q R : Type 0} (call : Q → W → R × W) (routes : ℕ → Route) (w : W) where
  -- A state with goroutine `i` in the call, where the others and the other mutexes are as before.
  record Entered (s : System W Q R) (i : ℕ) : Type 0 where
    to : System W Q R
    reach : Reach call routes w to
    calls : in_call (to.pc i) ≡ true
    others : (j : ℕ) → i ≢ j → to.pc j ≡ s.pc j
    unlocked :
        (m : Mutex)
        → shares (mutex (routes i)) m ≡ false
        → is_locked m to.locks ≡ is_locked m s.locks

  entered :
      (s : System W Q R) (i : ℕ) (q : Q)
      → Reach call routes w s
      → s.pc i ≡ idle
      → ((m : Mutex) → mutex (routes i) ≡ some m → is_locked m s.locks ≡ false)
      → Entered s i
  entered s i q r rest free = elim (Option-cases (mutex (routes i))) [
    | inl alone ↦ record {
      to = _;
      reach =
          later (later (later r (ask i q rest)) (pass i q (update_self s.pc i (waiting q)) alone))
            (enter i q (update_self (update s.pc i (waiting q)) i (locked q)));
      calls = ground arith;
      others = λ j h. ground (arith, h);
      unlocked = λ m h. refl;
    }
    | inr (k, takes) ↦ record {
      to = _;
      reach =
          later
            (later (later r (ask i q rest))
              (lock i k q (update_self s.pc i (waiting q)) takes (free k takes)))
            (enter i q (update_self (update s.pc i (waiting q)) i (locked q)));
      calls = ground arith;
      others = λ j h. ground (arith, h);
      unlocked = λ m h. is_locked_other k m true s.locks (rw takes at h);
    }
  ]

  -- A state is reached in which both goroutines are in a call.
  abbrev pub Together : ℕ → ℕ → Type 0
  Together i j =
      (s : System W Q R) × Reach call routes w s
      × (in_call (s.pc i) ≡ true)
      × (in_call (s.pc j) ≡ true)

  apart : (i j : ℕ) → i ≢ j → serialized (routes i) (routes j) ≡ true → Together i j → false ≡ true
  apart i j differ h (s, r, hi, hj) =
      let (m, mi, mj) = serialized-mutex (routes i) (routes j) h in
      let own_i : owns call routes m s i ≡ true =
        rw (mi, shares_self m, holds-in_call (s.pc i) hi) refl in
      let own_j : owns call routes m s j ≡ true =
        rw (mj, shares_self m, holds-in_call (s.pc j) hj) refl in
      absurd (differ (exclusion call routes m w s i j r own_i own_j).0)

  together : (i j : ℕ) (q : Q) → i ≢ j → serialized (routes i) (routes j) ≡ false → Together i j
  together i j q differ h =
      let first = entered (at_rest w) i q start refl (λ m e. rest_free W Q R w m) in
      let still = first.others j differ in
      let second =
        entered first.to j q first.reach still
          (λ m e. first.unlocked m (unshared (routes i) (routes j) m h e) ∙ rest_free W Q R w m) in
      (
        second.to,
        second.reach,
        (let same = second.others i (λ e. differ (sym e)) in rw same first.calls),
        second.calls,
      )

  -- Two goroutines can be in a call at the same time exactly if they do not both go through
  -- CallService, both through UefiCall3, or both through TicksFrequency.
  pub overlap_iff :
      (i j : ℕ) (q : Q) → i ≢ j → Together i j ↔ (serialized (routes i) (routes j) ≡ false)
  overlap_iff i j q differ = (
    (λ t. elim (Bool-cases (serialized (routes i) (routes j))) [
      | inl h ↦ absurd (ground (arith, apart i j differ h t))
      | inr h ↦ h
    ]),
    together i j q differ,
  )
