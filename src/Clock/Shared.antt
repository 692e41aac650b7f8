-- ===== src/Clock/Shared.antt =====
-- Goroutines that call TicksFrequency of pkg/uefi/clock.go at the same time.
use uki_stub.Common.{
  ℕ, zero, suc, ◌≡◌, refl, sym, ap, ◌∙◌, ◌⊎◌, inl, inr, List, [], ◌∷◌, All, arith, Outcome, ok, err,
  panic,
}
use uki_stub.Firmware.{Firmware, M}
use uki_stub.Firmware.Lock.{System, Reach, ticks, calibrate_mutex}
use uki_stub.Firmware.Sequential.{IsRun, sequential}
use uki_stub.Clock.Ticks.{Globals, ticks_frequency}
use uki_stub.Clock.Cached.{ticks_frequency-ticks_frequency}

-- The frequency, and the variables of the package in the state; a panic leaves them.
abbrev pub reported : {W : Type 0} → Globals → Outcome (ℕ × Globals) × W → Outcome ℕ × (W × Globals)
reported g (ok (f, g'), w) = (ok f, (w, g'))
reported g (err e, w) = (err e, (w, g))
reported g (panic, w) = (panic, (w, g))

abbrev pub ask_frequency :
    {W : Type 0}
    → Firmware W
    → (st image tsc : ℕ) → M W ℕ
    → Unit {0}
    → W × Globals
    → Outcome ℕ × (W × Globals)
ask_frequency fw st image tsc counter q (w, g) =
    reported g (ticks_frequency fw st image tsc counter g w)

-- A call that returned gave 0 or this frequency.
abbrev pub Gave : ℕ → ℕ × (Unit {0} × Outcome ℕ) → Type 0
Gave f (i, (q, ok n)) = (n ≡ 0) ⊎ (n ≡ f)
Gave f (i, (q, err e)) = Unit {0}
Gave f (i, (q, panic)) = Unit {0}

Gave-zero : (f : ℕ) (e : ℕ × (Unit {0} × Outcome ℕ)) → Gave 0 e → Gave f e
Gave-zero f (i, (q, ok n)) h = inl (ground (arith, h))
Gave-zero f (i, (q, err e)) h = tt
Gave-zero f (i, (q, panic)) h = tt

All-Gave-zero : (f : ℕ) (hs : List (ℕ × (Unit {0} × Outcome ℕ))) → All (Gave 0) hs → All (Gave f) hs
All-Gave-zero f [] h = tt
All-Gave-zero f (e ∷ hs) (h, all) = (Gave-zero f e h, All-Gave-zero f hs all)

module _ {W : Type 0} (fw : Firmware W) (st image tsc : ℕ) (counter : M W ℕ) where
  -- Any later call gives this frequency, and changes nothing.
  abbrev Settled : ℕ → Globals → Type 0
  Settled f g = (later : W) → ticks_frequency fw st image tsc counter g later ≡ (ok (f, g), later)

  ask_frequency_ok :
      (q : Unit {0}) (w w' : W) (g g' : Globals) (n : ℕ)
      → ask_frequency fw st image tsc counter q (w, g) ≡ (ok n, (w', g'))
      → ticks_frequency fw st image tsc counter g w ≡ (ok (n, g'), w')
  ask_frequency_ok q w w' g g' n e = go (ticks_frequency fw st image tsc counter g w) e
    where
      go : (r : Outcome (ℕ × Globals) × W) → reported g r ≡ (ok n, (w', g')) → r ≡ (ok (n, g'), w')
      go (ok (f, h), v) e = cc (e)
      go (err f, v) e = absurd (cc (e))
      go (panic, v) e = absurd (cc (e))

  -- A first call that gives a frequency above 0 settles it.
  first-Gave :
      (i : ℕ) (q : Unit {0}) (w w' : W) (g g' : Globals) (r : Outcome ℕ)
      → ask_frequency fw st image tsc counter q (w, g) ≡ (r, (w', g'))
      → Gave 0 (i, (q, r)) ⊎ ((f : ℕ) × Settled f g' × Gave f (i, (q, r)))
  first-Gave i q w w' g g' (ok zero) e = inl (inl refl)
  first-Gave i q w w' g g' (ok (suc n)) e =
      let given = ask_frequency_ok q w w' g g' (suc n) e in
      inr (
        suc n,
        λ later.
            ticks_frequency-ticks_frequency fw st image tsc counter g g' (suc n) w w' later given
              (omega arith),
        inr refl,
      )
  first-Gave i q w w' g g' (err e) call = inl tt
  first-Gave i q w w' g g' panic call = inl tt

  later-Gave :
      (i : ℕ) (q : Unit {0}) (w w' : W) (g g' : Globals) (r : Outcome ℕ) (f : ℕ)
      → Settled f g
      → ask_frequency fw st image tsc counter q (w, g) ≡ (r, (w', g'))
      → Settled f g' × Gave f (i, (q, r))
  later-Gave i q w w' g g' r f settled e =
      let reply : ask_frequency fw st image tsc counter q (w, g) ≡ (ok f, (w, g)) =
        ap (reported g) (settled w) in
      let same : ◌≡◌ {A = Outcome ℕ × (W × Globals)} (ok f, (w, g)) (r, (w', g')) = sym reply ∙ e in
      let given : r ≡ ok f = sym (ap (λ p. p.0) same) in
      let kept : g' ≡ g = sym (ap (λ p. p.1.1) same) in (rw kept settled, rw given (inr refl))

  Run-Gave :
      (m0 m : W × Globals) (hs : List (ℕ × (Unit {0} × Outcome ℕ)))
      → IsRun (ask_frequency fw st image tsc counter) m0 hs m
      → (All (Gave 0) hs) ⊎ ((f : ℕ) × Settled f m.1 × All (Gave f) hs)
  Run-Gave m0 m [] run = inl tt
  Run-Gave m0 (w, g) ((i, (q, r)) ∷ before) ((w1, g1), run, call) =
      elim (Run-Gave m0 (w1, g1) before run) [
        | inl none_yet ↦ elim (first-Gave i q w1 w g1 g r call) [
          | inl zero' ↦ inl (zero', none_yet)
          | inr (f, settled, gave) ↦ inr (f, settled, (gave, All-Gave-zero f before none_yet))
        ]
        | inr (f, settled, all) ↦
            let (settled', gave) = later-Gave i q w1 w g1 g r f settled call in
            inr (f, settled', (gave, all))
      ]

  -- Whatever goroutines call TicksFrequency, and however their steps interleave: there is one
  -- frequency, such that each call that has returned gave that or 0.
  pub one_frequency :
      (m : W × Globals) (s : System (W × Globals) (Unit {0}) (Outcome ℕ))
      → Reach (ask_frequency fw st image tsc counter) (λ i. ticks) m s
      → (f : ℕ) × All (Gave f) s.history
  one_frequency m s r =
      let run =
        sequential (ask_frequency fw st image tsc counter) (λ i. ticks) calibrate_mutex (λ i. refl)
          m s r in
      elim (Run-Gave m s.machine s.history run) [
        | inl none_yet ↦ (0, none_yet)
        | inr (f, settled, all) ↦ (f, all)
      ]
