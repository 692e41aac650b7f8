-- ===== src/Clock/Cached.antt =====
-- The frequency that TicksFrequency of pkg/uefi/clock.go keeps.
use uki_stub.Common.{ℕ, ◌≡◌, ◌<◌, Bool-cases, inl, inr, List, ltb, ◌==◌, if◌then◌else◌, arith, ok}
use uki_stub.Firmware.{Firmware, M, value, reference, Reply, return, left_in, ◌>>=◌, >>=-eq-ok}
use uki_stub.Guid.{codes}
use uki_stub.Status.{efi_success}
use uki_stub.Uefi.Tables.{boot_services}
use uki_stub.Uefi.BootServices.{create_event, close_event}
use uki_stub.Clock.Ticks.{Globals, evt_timer, tpl_callback, calibrate, fail_with, ticks_frequency}

module _ {W : Type 0} (fw : Firmware W) (st image : ℕ) where
  -- The result is the kept frequency.
  abbrev IsKept : ℕ × Globals → Type 0
  IsKept (f, g) = g.calculated_frequency ≡ f

  fail_with-IsKept :
      (text : List ℕ) (status : ℕ) (g : Globals) (out : ℕ × Globals) (w w' : W)
      → g.calculated_frequency ≡ 0
      → fail_with fw st image text status g w ≡ (ok out, w')
      → IsKept out
  fail_with-IsKept text status g out w w' none_kept e = ground (arith, none_kept, e)

  calibrate-IsKept :
      (ticks : M W ℕ) (bs event : ℕ) (g : Globals) (out : ℕ × Globals) (w w' : W)
      → g.calculated_frequency ≡ 0
      → calibrate fw st image ticks bs event g w ≡ (ok out, w')
      → IsKept out
  unfolding calibrate
  calibrate-IsKept ticks bs event g out w w' none_kept e = ground (arith, none_kept, e)

  -- What follows on CreateEvent.
  abbrev measure : M W ℕ → ℕ → Globals → Reply → M W (ℕ × Globals)
  measure ticks bs g r =
      if r.status == efi_success
      then (do
        out ← calibrate fw st image ticks bs (left_in r 0 0) g
        _ ← close_event fw bs (left_in r 0 0)
        return out)
      else fail_with fw st image (codes "GetTscFrequency) CreateEvent Failed") r.status g

  measure-IsKept :
      (ticks : M W ℕ) (bs : ℕ) (g : Globals) (r : Reply) (out : ℕ × Globals) (w w' : W)
      → g.calculated_frequency ≡ 0
      → measure ticks bs g r w ≡ (ok out, w')
      → IsKept out
  measure-IsKept ticks bs g r out w w' none_kept e = elim (Bool-cases (r.status == efi_success)) [
    | inl fine ↦
        let event = left_in r 0 0 in
        let close : ℕ × Globals → M W (ℕ × Globals) =
          λ out. do _ ← close_event fw bs event; return out
        in let (made, w1, measured, closed) =
            >>=-eq-ok (calibrate fw st image ticks bs event g) close w (rw fine at e) in
          let kept = calibrate-IsKept ticks bs event g made w w1 none_kept measured in
          ground (arith, kept, closed)
    | inr failed ↦
        fail_with-IsKept (codes "GetTscFrequency) CreateEvent Failed") r.status g out w w' none_kept
          (rw failed at e)
  ]

  ticks_frequency-IsKept :
      (ticks : M W ℕ) (g : Globals) (out : ℕ × Globals) (w w' : W)
      → ticks_frequency fw st image 0 ticks g w ≡ (ok out, w')
      → IsKept out
  unfolding ticks_frequency
  ticks_frequency-IsKept ticks g out w w' e = elim (Bool-cases (ltb 0 g.calculated_frequency)) [
    | inl kept ↦ ground (arith, kept, e)
    | inr none_kept ↦
        let create : ℕ → M W Reply =
          λ bs. create_event fw bs evt_timer tpl_callback (value 0) (value 0) (reference 0) in
        let (bs, w1, _, further) =
          >>=-eq-ok (boot_services fw st image) (λ bs. create bs >>= (λ r. measure ticks bs g r)) w
            (rw none_kept at e) in
        let (r, w2, _, measured) = >>=-eq-ok (create bs) (λ r. measure ticks bs g r) w1 further in
        measure-IsKept ticks bs g r out w2 w' (ground (arith, none_kept)) measured
  ]

  -- Once TicksFrequency has given a frequency above 0, it gives the same again at any later time,
  -- and neither reads the counter, nor calls the firmware, nor changes its variables.
  pub ticks_frequency-ticks_frequency :
      (tsc : ℕ) (ticks : M W ℕ) (g g' : Globals) (f : ℕ) (w w' later : W)
      → ticks_frequency fw st image tsc ticks g w ≡ (ok (f, g'), w')
      → 0 < f
      → ticks_frequency fw st image tsc ticks g' later ≡ (ok (f, g'), later)
  unfolding ticks_frequency
  ticks_frequency-ticks_frequency tsc ticks g g' f w w' later e positive =
      elim (Bool-cases (ltb 0 tsc)) [
        | inl known ↦ ground (arith, known, e)
        | inr unknown ↦
            let none : tsc ≡ 0 = ground (arith, unknown) in
            let kept = ticks_frequency-IsKept ticks g (f, g') w w' (rw none at e) in
            ground (arith, none, kept, positive)
      ]
