-- ===== src/Graphics/Machine.antt =====
-- Init of the graphics output protocol on firmware that answers sensibly, beside its loop over
-- answers.
use uki_stub.Common.{
  ℕ, zero, suc, ◌+◌, ◌%◌, ◌^◌, ◌<◌, ◌≡◌, ◌≢◌, ◌⊎◌, Option, none, some, [], ◌∷◌, All, ok, ◌==◌,
  if◌then◌else◌, arith,
}
use uki_stub.Firmware.{Firmware, Request, Reply, value, reference, held, left_in, call_service}
use uki_stub.Services.System.{ModeInformation}
use uki_stub.Uefi.{word, field, call_method}
use uki_stub.Uefi.GraphicsOutput.{query_mode, set_mode}
use uki_stub.Graphics.{Best, better, no_mode, init_loop}
use uki_stub.Graphics.Highest.{IsAtMost, IsAnswer, answers, init_loop_le, init_loop-cases}
use uki_stub.Graphics.Init.{Search, information, half_word, max_mode, round, rounds, init}

module _ {W : Type 0} (fw : Firmware W) (p : ℕ) where
  -- The reply to QueryMode.
  unfoldable pub reply : ℕ → ℕ → W → Reply × W
  reply i info w =
      fw.call
        (record {
          fn = held (word fw ((p + 0) % 2 ^ 64) w);
          args = value p ∷ value i ∷ reference 0 ∷ reference info ∷ [];
        })
        w

  -- What the firmware answers for a mode, over the variable info and the machine.
  unfoldable pub answer : ℕ → ℕ × W → Option ModeInformation × (ℕ × W)
  unfolding reply
  answer i (info, w) =
      let r = reply i info w in
      let found = left_in r.0 1 info in
      ((if r.0.status == 0 then some (information fw found r.1) else none), (found, r.1))

  unfoldable pub set : ℕ → ℕ × W → ℕ × W
  set mode (info, w) = (
    info,
    (fw.call (record { fn = held (word fw ((p + 8) % 2 ^ 64) w); args = value p ∷ value mode ∷ [] })
        w).1,
  )

  -- The protocol has a mode struct, which announces `n` modes throughout.
  abbrev pub Announces : ℕ → Type 0
  Announces n =
      (w : W)
      → (word fw ((p + 24) % 2 ^ 64) w ≢ 0) × (half_word fw (word fw ((p + 24) % 2 ^ 64) w) w ≡ n)

  -- The firmware leaves no nil pointer in the variable info.
  abbrev pub Points : Type 0
  Points = (i info : ℕ) (w : W) → info ≢ 0 → left_in (reply i info w).0 1 info ≢ 0

  max_mode-Announces : (n : ℕ) (w : W) → p ≢ 0 → Announces n → max_mode fw p w ≡ (ok n, w)
  unfolding max_mode field
  max_mode-Announces n w somewhere announced =
      let (points, count) = announced w in ground (arith, somewhere, points, count)

  query_mode-reply :
      (i info : ℕ) (w : W)
      → p ≢ 0
      → query_mode fw p i (reference 0) (reference info) w
        ≡ (ok (reply i info w).0, (reply i info w).1)
  unfolding query_mode call_method field call_service reply
  query_mode-reply i info w somewhere = ground (arith, somewhere)

  set_mode-set :
      (mode info : ℕ) (w : W)
      → p ≢ 0
      → (x : Reply) × (set_mode fw p mode w ≡ (ok x, (set mode (info, w)).1))
  unfolding set_mode call_method field call_service set
  set_mode-set mode info w somewhere =
      let request : Request = record {
        fn = held (word fw ((p + 8) % 2 ^ 64) w);
        args = value p ∷ value mode ∷ [];
      } in
      ((fw.call request w).0, ground (arith, somewhere))

  round-answer :
      (i : ℕ) (s : Search) (w : W)
      → p ≢ 0
      → Points
      → s.info ≢ 0
      → round fw p i s w ≡ (
        ok (record {
          info = (answer i (s.info, w)).1.0;
          best = better i (answer i (s.info, w)).0 s.best;
        }),
        (answer i (s.info, w)).1.1,
      )
  unfolding round answer better
  round-answer i s w somewhere points pointed =
      ground (arith, query_mode-reply i s.info w somewhere, points i s.info w pointed)

  rounds-init_loop :
      (k n i fuel : ℕ) (s : Search) (w : W)
      → p ≢ 0
      → Announces n
      → Points
      → s.info ≢ 0
      → i + k ≡ n
      → n < 2 ^ 32
      → k < fuel
      → rounds fw p fuel i s w ≡ (
        ok (some (init_loop answer set k i s.best (s.info, w)).0),
        (init_loop answer set k i s.best (s.info, w)).1.1,
      )
  unfolding rounds init_loop
  rounds-init_loop zero n i (suc fuel) s w somewhere announced points pointed last small enough =
      ground (arith, max_mode-Announces n w somewhere announced, last)
  rounds-init_loop (suc k) n i (suc fuel) s w somewhere announced points pointed last small enough =
      let r = answer i (s.info, w) in
      let next : Search = record { info = r.1.0; best = better i r.0 s.best } in
      let pointed' : next.info ≢ 0 = unfold answer in points i s.info w pointed in
      let wrapped : (i + 1) % 2 ^ 32 ≡ i + 1 = omega (arith, last, small) in
      let rest =
        rounds-init_loop k n (i + 1) fuel next r.1.1 somewhere announced points pointed'
          (omega (arith, last)) small (omega (arith, enough)) in
      ground (
        arith,
        max_mode-Announces n w somewhere announced,
        last,
        round-answer i s w somewhere points pointed,
        wrapped,
        rest,
      )
  rounds-init_loop zero n i zero s w somewhere announced points pointed last small enough =
      elim enough [ ]
  rounds-init_loop (suc k) n i zero s w somewhere announced points pointed last small enough =
      elim enough [ ]

  -- On a protocol that announces `n` modes throughout, and firmware that leaves no nil pointer in
  -- the variable info, Init returns within any larger number of rounds. It sets the mode that it
  -- reports: one that the firmware answered for, with the most pixels, counted in uint32, of all
  -- modes answered for, or mode 0 with empty information.
  pub init_highest :
      (n fuel fresh : ℕ) (w : W)
      → p ≢ 0
      → fresh ≢ 0
      → Announces n
      → Points
      → n < 2 ^ 32
      → n < fuel
      → (b : Best) × (w' : ℕ × W) × (init fw p fuel fresh w ≡ (ok (some b.info), (set b.mode w').1))
        × All (IsAtMost b.pixels) (answers answer set n 0 (fresh, w))
        × ((b ≡ no_mode) ⊎ IsAnswer (answers answer set n 0 (fresh, w)) 0 b)
  unfolding init
  init_highest n fuel fresh w somewhere made announced points small enough =
      let r = init_loop answer set n 0 no_mode (fresh, w) in
      let start : Search = record { info = fresh; best = no_mode } in
      let found =
        rounds-init_loop n n 0 fuel start w somewhere announced points made (omega arith) small
          enough in
      let (_, ended) = set_mode-set r.0.mode r.1.0 r.1.1 somewhere in
      (
        r.0,
        r.1,
        ground (arith, found, ended),
        (init_loop_le answer set n 0 no_mode (fresh, w)).1,
        init_loop-cases answer set n 0 no_mode (fresh, w),
      )
