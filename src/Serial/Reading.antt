-- ===== src/Serial/Reading.antt =====
-- When Read of pkg/uefi/serial_io_protocol.go returns, and with what, told by the calls of the port
-- and its answers.
use Prim.Native.Nat.{bit_and, bit_or}
use uki_stub.Uefi.SerialIo
use uki_stub.Common.{
  ℕ, zero, suc, ◌-◌, ◌^◌, ◌+◌, ◌<◌, ◌≡◌, ◌≢◌, refl, ◌∙◌, ◌⊎◌, inl, inr, Option, none, some, List,
  arith, ◌==◌, if◌then◌else◌, length, get_or, ok, Bool-cases,
}
use uki_stub.Firmware.{Firmware, M, return, Reply, left_in, reference, buffer, >>=-ok}
use uki_stub.Status.ErrorMap.{
  Error, ErrMap, IsValid, code_of, status_error, status_error-code, status_error-IsValid,
}
use uki_stub.Serial.{
  SerialPort, Transfer, Turn, done, again, turn, settle, receive, round, request, read_rounds, read,
}

-- The answer is a time-out to the caller: no bytes, EFI_TIMEOUT, or EFI_NO_RESPONSE.
abbrev pub IsLate : List ℕ → Reply → Type 0
IsLate buf r =
    (left_in r 0 (length buf) ≡ 0) ⊎ ((r.status ≡ 2 ^ 63 + 18) ⊎ (r.status ≡ 2 ^ 63 + 16))

-- The answer is not a time-out.
abbrev pub IsAnswer : List ℕ → Reply → Type 0
IsAnswer buf r =
    (left_in r 0 (length buf) ≢ 0) × (r.status ≢ 2 ^ 63 + 18) × (r.status ≢ 2 ^ 63 + 16)

-- The count that an answer delivers, and the code of the error beside it.
abbrev pub delivered : List ℕ → Reply → ℕ
delivered buf r = if r.status == 0 then left_in r 0 (length buf) else 0

abbrev pub error_code : Reply → Option ℕ
error_code r = if r.status == 0 then none else some r.status

module _ {W : Type 0} (fw : Firmware W) (sp : SerialPort) where
  -- The port is asked once, for a buffer with room: its control bits are read, RTS and DTR are set,
  -- and the reading is answered.
  pub record Asked (bits : ℕ) (buf : List ℕ) (w : W) (bits' : ℕ) (r : Reply) (w' : W) : Type 0 where
    pub has_room : length buf ≢ 0
    pub control : Reply
    pub control_set : Reply
    pub w1 : W
    pub w2 : W
    pub gets : SerialIo.get_control fw sp.addr (reference bits) w ≡ (ok control, w1)
    pub found : left_in control 0 bits ≡ bits'
    pub sets : SerialIo.set_control fw sp.addr (bit_or (bit_or bits' 2) 1) w1 ≡ (ok control_set, w2)
    pub answers : SerialIo.read fw sp.addr (reference (length buf)) (buffer buf) w2 ≡ (ok r, w')

  -- The port is late so many times, with RTS cleared behind each, and answers the next time, for a
  -- given buffer.
  pub data Answers : ℕ → ℕ → List ℕ → W → List ℕ → Reply → W → Type 0 where
    at_once :
        {bits bits' : ℕ} {buf : List ℕ} {w w' : W} {r : Reply}
        → Asked bits buf w bits' r w'
        → IsAnswer buf r
        → Answers 0 bits buf w buf r w'
    after :
        {k bits bits' : ℕ} {buf last : List ℕ} {w w1 w2 w' : W} {r cleared answer : Reply}
        → Asked bits buf w bits' r w1
        → IsLate buf r
        → SerialIo.set_control fw sp.addr (bit_and bits' (2 ^ 32 - 1 - 2)) w1 ≡ (ok cleared, w2)
        → Answers k bits' (get_or r.bufs 0 buf) w2 last answer w'
        → Answers (suc k) bits buf w last answer w'

  turn-late :
      (bits : ℕ) (buf : List ℕ) (errs : ErrMap) (r : Reply)
      → IsLate buf r
      → turn bits buf errs r ≡ again bits (get_or r.bufs 0 buf)
  unfolding turn
  turn-late bits buf errs r (inl none') = ground (arith, none')
  turn-late bits buf errs r (inr (inl late)) = ground (arith, late)
  turn-late bits buf errs r (inr (inr late)) = ground (arith, late)

  turn-answer :
      (bits : ℕ) (buf : List ℕ) (errs : ErrMap) (r : Reply)
      → IsValid errs
      → IsAnswer buf r
      → (e : Option Error) × (errs' : ErrMap) × (turn bits buf errs r
          ≡ done ((delivered buf r, e, get_or r.bufs 0 buf), errs'))
        × (code_of e ≡ error_code r)
  unfolding turn
  turn-answer bits buf errs r v (some', timely, heard) = elim (Bool-cases (r.status == 0)) [
    | inl fine ↦ (none, errs, ground (arith, fine, some', timely, heard), ground (arith, fine))
    | inr bad ↦
        let printed = (status_error r.status errs).1 in
        (
          (status_error r.status printed).0,
          (status_error r.status printed).1,
          ground (arith, bad, some', timely, heard),
          status_error-code r.status printed (status_error-IsValid r.status errs v),
        )
  ]

  module _ (errs : ErrMap) where
    round-Asked :
        {bits bits' : ℕ} {buf : List ℕ} {w w' : W} {r : Reply}
        → Asked bits buf w bits' r w'
        → round fw sp bits buf errs w ≡ settle fw sp (turn bits' buf errs r) w'
    unfolding round request receive
    round-Asked {bits = bits} {buf = buf} a =
        ground (arith, a.has_room, a.gets, a.found, a.sets, a.answers)

    abbrev next : ℕ → Turn → M W (Option Transfer)
    next n t = elim t [
      | done out ↦ return (some out)
      | again bits buf ↦ read_rounds fw sp n bits buf errs
    ]

    rounds-done :
        (n bits : ℕ) (buf : List ℕ) (w : W) {w' : W} {out : Transfer}
        → round fw sp bits buf errs w ≡ (ok (done out), w')
        → read_rounds fw sp (suc n) bits buf errs w ≡ (ok (some out), w')
    unfolding read_rounds
    rounds-done n bits buf w e = >>=-ok (round fw sp bits buf errs) (next n) w e

    rounds-again :
        (n bits : ℕ) (buf : List ℕ) (w : W) {bits' : ℕ} {buf' : List ℕ} {w' : W}
        → round fw sp bits buf errs w ≡ (ok (again bits' buf'), w')
        → read_rounds fw sp (suc n) bits buf errs w ≡ read_rounds fw sp n bits' buf' errs w'
    unfolding read_rounds
    rounds-again n bits buf w e = >>=-ok (round fw sp bits buf errs) (next n) w e

    round-late :
        {bits bits' : ℕ} {buf : List ℕ} {w w1 w2 : W} {r cleared : Reply}
        → Asked bits buf w bits' r w1
        → IsLate buf r
        → SerialIo.set_control fw sp.addr (bit_and bits' (2 ^ 32 - 1 - 2)) w1 ≡ (ok cleared, w2)
        → round fw sp bits buf errs w ≡ (ok (again bits' (get_or r.bufs 0 buf)), w2)
    unfolding settle
    round-late {bits' = bits'} {buf = buf} {r = r} a late e =
        ground (arith, round-Asked a, turn-late bits' buf errs r late, e)

    rounds_return :
        (rounds : ℕ) {k bits : ℕ} {buf last : List ℕ} {w w' : W} {r : Reply}
        → IsValid errs
        → Answers k bits buf w last r w'
        → k < rounds
        → (e : Option Error) × (errs' : ErrMap) × (read_rounds fw sp rounds bits buf errs w
            ≡ (ok (some ((delivered last r, e, get_or r.bufs 0 last), errs')), w'))
          × (code_of e ≡ error_code r)
    unfolding settle
    rounds_return zero v a h = absurd (omega arith)
    rounds_return (suc n) {buf = buf} {r = r} v (at_once {bits' = bits'} a answer) h =
        let (e, errs', turns, code) = turn-answer bits' buf errs r v answer in
        (e, errs', rounds-done n _ _ _ (ground (arith, round-Asked a, turns)), code)
    rounds_return (suc n) v (after a late clears rest) h =
        let (e, errs', runs, code) = rounds_return n v rest (omega arith) in
        (e, errs', rounds-again n _ _ _ (round-late a late clears) ∙ runs, code)

    rounds_late :
        {k bits : ℕ} {buf last : List ℕ} {w w' : W} {r : Reply}
        → Answers k bits buf w last r w'
        → (read_rounds fw sp k bits buf errs w).0 ≡ ok none
    unfolding read_rounds
    rounds_late (at_once a answer) = refl
    rounds_late {k = suc k} (after a late clears rest) =
        rw (rounds-again k _ _ _ (round-late a late clears)) (rounds_late rest)

  -- If the port is late `k` times and then answers, where no bytes, EFI_TIMEOUT and EFI_NO_RESPONSE
  -- are late and any other status is an answer, then Read has not returned within `k` rounds, and
  -- returns within any larger number of them: with the bytes and no error for EFI_SUCCESS, and else
  -- with no bytes and an error of the status. Each reading is for a buffer that is not empty, and
  -- the map of errors is valid.
  pub read_answered :
      (rounds : ℕ) (errs : ErrMap) {k : ℕ} {buf last : List ℕ} {w w' : W} {r : Reply}
      → IsValid errs
      → Answers k 0 buf w last r w'
      → k < rounds
      → ((read fw sp k buf errs w).0 ≡ ok none)
        × ((e : Option Error) × (errs' : ErrMap) × (read fw sp rounds buf errs w
              ≡ (ok (some ((delivered last r, e, get_or r.bufs 0 last), errs')), w'))
            × (code_of e ≡ error_code r))
  unfolding read
  read_answered rounds errs v a h = (rounds_late errs a, rounds_return errs rounds v a h)
