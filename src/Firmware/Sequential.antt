-- ===== src/Firmware/Sequential.antt =====
-- The interleaved calls under a mutex as calls one by one.
use uki_stub.Common.{
  ℕ, ◌≡◌, ◌≢◌, refl, sym, ap, true, some, List, [], ◌∷◌, ◌==◌, arith, Bool-cases, inl, inr,
}
use uki_stub.Firmware.Lock.{
  Mutex, Route, mutex, Pc, idle, waiting, locked, inside, System, update, Step, ask, lock, pass,
  enter, leave, unlock, done, Reach, start, later,
}
use uki_stub.Firmware.Exclusion.{holds, shares_self, owns, exclusion}

-- The calls of a history, the last one first, each run to its end in front of the next.
abbrev pub IsRun : {W Q R : Type 0} → (Q → W → R × W) → W → List (ℕ × (Q × R)) → W → Type 0
IsRun call w0 [] w = w ≡ w0
IsRun {W} call w0 ((i, (q, r)) ∷ before) w =
    (w1 : W) × IsRun call w0 before w1 × (call q w1 ≡ (r, w))

module _ {W Q R : Type 0} (call : Q → W → R × W) (routes : ℕ → Route) (m : Mutex)
    (all_share : (i : ℕ) → mutex (routes i) ≡ some m) where
  -- A goroutine in the call sees the machine as it is.
  abbrev IsCurrent : System W Q R → Type 0
  IsCurrent s = (i : ℕ) (q : Q) (v : W) → s.pc i ≡ inside q v → v ≡ s.machine

  owns_inside : (s : System W Q R) (i : ℕ) → holds (s.pc i) ≡ true → owns call routes m s i ≡ true
  owns_inside s i h = rw (all_share i, shares_self m, h) refl

  -- A step that leaves the machine as it is and puts no goroutine into the call.
  same-IsCurrent :
      (s : System W Q R) (i : ℕ) (p : Pc W Q R)
      → ((q : Q) (v : W) → p ≢ inside q v)
      → IsCurrent s
      → (j : ℕ) (q : Q) (v : W) → update s.pc i p j ≡ inside q v
      → v ≡ s.machine
  same-IsCurrent s i p outside current j q v at = elim (Bool-cases (i == j)) [
    | inl here ↦ absurd (outside q v (ground (arith, here, at)))
    | inr differ ↦ current j q v (ground (arith, differ, at))
  ]

  Step-IsCurrent :
      {w : W} {s t : System W Q R}
      → Reach call routes w s
      → Step call routes s t
      → IsCurrent s
      → IsCurrent t
  Step-IsCurrent {s} r (ask i q at) c = same-IsCurrent s i (waiting q) (λ _ _ e. cc) c
  Step-IsCurrent {s} r (lock i k q at shared open') c =
      same-IsCurrent s i (locked q) (λ _ _ e. cc) c
  Step-IsCurrent {s} r (pass i q at alone) c = same-IsCurrent s i (locked q) (λ _ _ e. cc) c
  Step-IsCurrent {s} r (enter i q at) c = λ j p v here. elim (Bool-cases (i == j)) [
    | inl same ↦ ground (arith, same, here)
    | inr differ ↦ c j p v (ground (arith, differ, here))
  ]
  Step-IsCurrent {w} {s} r (leave i q u at) c = λ j p v here. elim (Bool-cases (i == j)) [
    | inl same ↦ absurd (ground (arith, same, here))
    | inr differ ↦
        let inside_too : s.pc j ≡ inside p v = ground (arith, differ, here) in
        let one =
          exclusion call routes m w s i j r (owns_inside s i (rw at refl))
            (owns_inside s j (rw inside_too refl)) in
        absurd (ground (arith, differ, one.0))
  ]
  Step-IsCurrent {s} r (unlock i k a at shared) c = same-IsCurrent s i idle (λ _ _ e. cc) c
  Step-IsCurrent {s} r (done i a at alone) c = same-IsCurrent s i idle (λ _ _ e. cc) c

  Reach-IsCurrent : {w : W} {s : System W Q R} → Reach call routes w s → IsCurrent s
  Reach-IsCurrent start = λ i q v at. cc
  Reach-IsCurrent (later r step) = Step-IsCurrent r step (Reach-IsCurrent r)

  Step-IsRun :
      (w : W) {s t : System W Q R}
      → Step call routes s t
      → IsCurrent s
      → IsRun call w s.history s.machine
      → IsRun call w t.history t.machine
  Step-IsRun w (ask i q at) c run = run
  Step-IsRun w (lock i k q at shared open') c run = run
  Step-IsRun w (pass i q at alone) c run = run
  Step-IsRun w (enter i q at) c run = run
  Step-IsRun w {s} (leave i q u at) c run = (s.machine, run, ap (λ v. call q v) (sym (c i q u at)))
  Step-IsRun w (unlock i k a at shared) c run = run
  Step-IsRun w (done i a at alone) c run = run

  -- If all goroutines call under the same mutex, then in every state that is reached the machine is what
  -- the calls that have ended make of the first machine, run one by one in the order in which they
  -- ended, and each of them gave the reply that it gives there.
  pub sequential :
      (w : W) (s : System W Q R) → Reach call routes w s → IsRun call w s.history s.machine
  sequential w _ start = refl
  sequential w _ (later r step) = Step-IsRun w step (Reach-IsCurrent r) (sequential w _ r)
