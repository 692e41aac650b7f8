-- ===== src/Firmware/Exclusion.antt =====
-- Which goroutines are in a call at the same time.
use uki_stub.Common.{
  ℕ, ◌≡◌, ◌≢◌, refl, sym, ◌∙◌, Bool, true, false, Option, none, some, ◌==◌, arith, Bool-cases, inl,
  inr, ◌⊎◌, ◌&&◌, ==_self,
}
use uki_stub.Firmware.Lock.{
  Mutex, core_mux, uefi_mux, calibrate_mutex, Route, mutex, Locks, is_locked, set_lock, Pc, idle,
  waiting, locked, inside, leaving, System, update, Step, ask, lock, pass, enter, leave, unlock,
  done, Reach, start, later,
}

-- Behind Lock and in front of Unlock.
abbrev pub holds : {W Q R : Type 0} → Pc W Q R → Bool
holds idle = false
holds (waiting q) = false
holds (locked q) = true
holds (inside q w) = true
holds (leaving r) = true

abbrev pub same_mutex : Mutex → Mutex → Bool
same_mutex core_mux m = elim m [ core_mux ↦ true | _ ↦ false ]
same_mutex uefi_mux m = elim m [ uefi_mux ↦ true | _ ↦ false ]
same_mutex calibrate_mutex m = elim m [ calibrate_mutex ↦ true | _ ↦ false ]

-- A route takes this mutex.
abbrev pub shares : Option Mutex → Mutex → Bool
shares none m = false
shares (some k) m = same_mutex k m

-- At most one goroutine owns a mutex, and it is locked exactly if one does.
record Inv (is_locked : Bool) (owns : ℕ → Bool) : Type 0 where
  unique : (i j : ℕ) → owns i ≡ true → owns j ≡ true → i ≡ j
  free : (i : ℕ) → owns i ≡ true → is_locked ≡ true
  owned : is_locked ≡ true → (i : ℕ) × (owns i ≡ true)

Inv-cong : {b : Bool} {own own' : ℕ → Bool} → ((j : ℕ) → own' j ≡ own j) → Inv b own → Inv b own'
Inv-cong same inv = record {
  unique = λ i j hi hj. inv.unique i j (sym (same i) ∙ hi) (sym (same j) ∙ hj);
  free = λ i hi. inv.free i (sym (same i) ∙ hi);
  owned = λ h. let (i, hi) = inv.owned h in (i, same i ∙ hi);
}

module _ (i : ℕ) {own own' : ℕ → Bool} (others : (j : ℕ) → i ≢ j → own' j ≡ own j) where
  Inv-take : own' i ≡ true → Inv false own → Inv true own'
  Inv-take mine inv =
      let only : (j : ℕ) → own' j ≡ true → i ≡ j = λ j hj. elim (Bool-cases (i == j)) [
        | inl same ↦ ground (arith, same)
        | inr differ ↦
            absurd (ground (arith, inv.free j (sym (others j (ground (arith, differ))) ∙ hj)))
      ] in
      record {
        unique = λ a b ha hb. sym (only a ha) ∙ only b hb;
        free = λ j hj. refl;
        owned = λ h. (i, mine);
      }

  Inv-release : {b : Bool} → own i ≡ true → own' i ≡ false → Inv b own → Inv false own'
  Inv-release mine given inv =
      let none_left : (j : ℕ) → own' j ≢ true = λ j hj. elim (Bool-cases (i == j)) [
        | inl same ↦ ground (arith, same, given, hj)
        | inr differ ↦
            let other : i ≢ j = ground (arith, differ) in
            other (inv.unique i j mine (sym (others j other) ∙ hj))
      ] in
      record {
        unique = λ a b ha hb. absurd (none_left a ha);
        free = λ j hj. absurd (none_left j hj);
        owned = λ h. absurd (ground arith);
      }

pub update_self : {A : Type 0} (f : ℕ → A) (i : ℕ) (a : A) → update f i a i ≡ a
update_self f i a = ground arith

pub update_other : {A : Type 0} (f : ℕ → A) (i : ℕ) (a : A) (j : ℕ) → i ≢ j → update f i a j ≡ f j
update_other f i a j h = ground (arith, h)

shares-cases : (k m : Mutex) → (k ≡ m) ⊎ (shares (some k) m ≡ false)
shares-cases core_mux core_mux = inl refl
shares-cases core_mux uefi_mux = inr refl
shares-cases core_mux calibrate_mutex = inr refl
shares-cases uefi_mux core_mux = inr refl
shares-cases uefi_mux uefi_mux = inl refl
shares-cases uefi_mux calibrate_mutex = inr refl
shares-cases calibrate_mutex core_mux = inr refl
shares-cases calibrate_mutex uefi_mux = inr refl
shares-cases calibrate_mutex calibrate_mutex = inl refl

pub shares_self : (m : Mutex) → shares (some m) m ≡ true
shares_self core_mux = refl
shares_self uefi_mux = refl
shares_self calibrate_mutex = refl

is_locked-set_lock : (m : Mutex) (b : Bool) (l : Locks) → is_locked m (set_lock m b l) ≡ b
is_locked-set_lock core_mux b l = refl
is_locked-set_lock uefi_mux b l = refl
is_locked-set_lock calibrate_mutex b l = refl

pub is_locked_other :
    (k m : Mutex) (b : Bool) (l : Locks)
    → shares (some k) m ≡ false
    → is_locked m (set_lock k b l) ≡ is_locked m l
is_locked_other core_mux core_mux b l h = absurd (ground arith)
is_locked_other core_mux uefi_mux b l h = refl
is_locked_other core_mux calibrate_mutex b l h = refl
is_locked_other uefi_mux core_mux b l h = refl
is_locked_other uefi_mux uefi_mux b l h = absurd (ground arith)
is_locked_other uefi_mux calibrate_mutex b l h = refl
is_locked_other calibrate_mutex core_mux b l h = refl
is_locked_other calibrate_mutex uefi_mux b l h = refl
is_locked_other calibrate_mutex calibrate_mutex b l h = absurd (ground arith)

module _ {W Q R : Type 0} (call : Q → W → R × W) (routes : ℕ → Route) (m : Mutex) where
  -- Goroutine `i` is between Lock and Unlock of the mutex.
  abbrev pub owns : System W Q R → ℕ → Bool
  owns s i = shares (mutex (routes i)) m && holds (s.pc i)

  abbrev IsExclusive : System W Q R → Type 0
  IsExclusive s = Inv (is_locked m s.locks) (owns s)

  owns-update :
      (pc : ℕ → Pc W Q R) (i : ℕ) (p : Pc W Q R)
      → (shares (mutex (routes i)) m && holds p) ≡ (shares (mutex (routes i)) m && holds (pc i))
      → (j : ℕ)
      → (shares (mutex (routes j)) m && holds (update pc i p j))
        ≡ (shares (mutex (routes j)) m && holds (pc j))
  owns-update pc i p same j = elim (Bool-cases (i == j)) [
    | inl here ↦ let e : i ≡ j = ground (arith, here) in rw (here, ← e) same
    | inr differ ↦ ground (arith, differ)
  ]

  lock-IsExclusive :
      (s : System W Q R) (i : ℕ) (q : Q)
      → mutex (routes i) ≡ some m
      → is_locked m s.locks ≡ false
      → IsExclusive s
      → IsExclusive (record s { locks = set_lock m true s.locks; pc = update s.pc i (locked q) })
  lock-IsExclusive s i q shared open' inv = rw (is_locked-set_lock m true s.locks) (
      Inv-take i (λ j h. ground (arith, h)) (rw (shared, shares_self m, ==_self i) refl)
        (rw open' at inv))

  unlock-IsExclusive :
      (s : System W Q R) (i : ℕ) (r : R)
      → s.pc i ≡ leaving r
      → mutex (routes i) ≡ some m
      → IsExclusive s
      → IsExclusive (record s { locks = set_lock m false s.locks; pc = update s.pc i idle })
  unlock-IsExclusive s i r at shared inv = rw (is_locked-set_lock m false s.locks) (
      Inv-release i (λ j h. ground (arith, h)) (rw (shared, shares_self m, at) refl)
        (rw (==_self i, shared, shares_self m) refl) inv)

  -- A step on the other mutex.
  other-IsExclusive :
      (s : System W Q R) (i : ℕ) (k : Mutex) (b : Bool) (p : Pc W Q R)
      → mutex (routes i) ≡ some k
      → shares (some k) m ≡ false
      → IsExclusive s
      → IsExclusive (record s { locks = set_lock k b s.locks; pc = update s.pc i p })
  other-IsExclusive s i k b p shared differ inv =
      rw (is_locked_other k m b s.locks differ)
        (Inv-cong (owns-update s.pc i p (rw (shared, differ) refl)) inv)

  Step-IsExclusive : {s t : System W Q R} → Step call routes s t → IsExclusive s → IsExclusive t
  Step-IsExclusive {s} (ask i q at) inv =
      Inv-cong (owns-update s.pc i (waiting q) (ground (arith, at))) inv
  Step-IsExclusive {s} (lock i k q at shared open') inv = elim (shares-cases k m) [
    | inl e ↦ rw e (lock-IsExclusive s i q (rw e at shared) (rw e at open') inv)
    | inr differ ↦ other-IsExclusive s i k true (locked q) shared differ inv
  ]
  Step-IsExclusive {s} (pass i q at alone) inv =
      Inv-cong (owns-update s.pc i (locked q) (ground (arith, at, alone))) inv
  Step-IsExclusive {s} (enter i q at) inv =
      Inv-cong (owns-update s.pc i (inside q s.machine) (ground (arith, at))) inv
  Step-IsExclusive {s} (leave i q w at) inv =
      Inv-cong (owns-update s.pc i (leaving (call q w).0) (ground (arith, at))) inv
  Step-IsExclusive {s} (unlock i k r at shared) inv = elim (shares-cases k m) [
    | inl e ↦ rw e (unlock-IsExclusive s i r at (rw e at shared) inv)
    | inr differ ↦ other-IsExclusive s i k false idle shared differ inv
  ]
  Step-IsExclusive {s} (done i r at alone) inv =
      Inv-cong (owns-update s.pc i idle (ground (arith, at, alone))) inv

  Reach-IsExclusive : {w : W} {s : System W Q R} → Reach call routes w s → IsExclusive s
  Reach-IsExclusive {w} start = record {
    unique = λ i j hi hj. absurd (ground (arith, hi));
    free = λ i hi. absurd (ground (arith, hi));
    owned = λ h. absurd (not_locked m h);
  }
    where
      not_locked :
          (m : Mutex)
          → is_locked m
              (record { core_locked = false; uefi_locked = false; calibrate_locked = false })
            ≢ true
      not_locked core_mux h = ground arith
      not_locked uefi_mux h = ground arith
      not_locked calibrate_mutex h = ground arith
  Reach-IsExclusive (later r step) = Step-IsExclusive step (Reach-IsExclusive r)

  -- In every state that is reached, two goroutines between Lock and Unlock of the same mutex are
  -- one, so that no two calls under it run at once, and the mutex is locked.
  pub exclusion :
      (w : W) (s : System W Q R) (i j : ℕ)
      → Reach call routes w s
      → owns s i ≡ true
      → owns s j ≡ true
      → (i ≡ j) × (is_locked m s.locks ≡ true)
  exclusion w s i j r hi hj = let inv = Reach-IsExclusive r in (inv.unique i j hi hj, inv.free i hi)

  -- A mutex is not left locked: while it is, some goroutine is on its way to Unlock.
  locked_by :
      (w : W) (s : System W Q R)
      → Reach call routes w s
      → is_locked m s.locks ≡ true
      → (i : ℕ) × (owns s i ≡ true)
  locked_by w s r = (Reach-IsExclusive r).owned
