-- ===== src/Serial.antt =====
-- SerialPort of pkg/uefi/serial_io_protocol.go: a serial port as an io.Reader and io.Writer.
pub mod Reading
use Prim.Native.Nat.{bit_and, bit_or}
use uki_stub.Common.{
  ℕ, zero, suc, ◌-◌, ◌^◌, ◌&&◌, ◌||◌, Bool, Option, none, some, List, [], ◌∷◌, ◌==◌, if◌then◌else◌,
  length, get_or,
}
use uki_stub.Firmware.{Firmware, M, value, reference, buffer, Reply, left_in, return, crash, ◌>>=◌}
use uki_stub.Status.{efi_success}
use uki_stub.Status.ErrorMap.{Error, ErrMap, status_error, error_status}
use uki_stub.Uefi.SerialIo

-- `addr` is the address of the protocol.
pub record SerialPort : Type 0 where
  pub addr : ℕ
  pub flow_control : Bool

abbrev pub efi_timeout : ℕ
efi_timeout = error_status 18

abbrev pub efi_no_response : ℕ
efi_no_response = error_status 16

abbrev pub data_terminal_ready : ℕ
data_terminal_ready = 0x0001

abbrev pub request_to_send : ℕ
request_to_send = 0x0002

abbrev pub clear_to_send : ℕ
clear_to_send = 0x0010

-- The count, the error, the buffer, and the map of errors.
abbrev pub Transfer : Type 0
Transfer = (ℕ × Option Error × List ℕ) × ErrMap

-- A round of Read: it returns, or goes on with the control bits and the buffer of this round.
pub data Turn : Type 0 where
  done : Transfer → Turn
  again : ℕ → List ℕ → Turn

-- An error that is printed first and then made again.
abbrev pub printed_error : ℕ → List ℕ → ErrMap → Transfer
printed_error status buf errs =
    let made = status_error status (status_error status errs).1 in ((0, made.0, buf), made.1)

-- The switch of Read over the answer of the port; no bytes count as a time-out.
unfoldable pub turn : ℕ → List ℕ → ErrMap → Reply → Turn
turn bits buf errs r =
    let n = left_in r 0 (length buf) in
    let buf' = get_or r.bufs 0 buf in
    let status = if n == 0 then efi_timeout else r.status in
    if status == efi_success
    then done ((n, none, buf'), errs)
    else if status == efi_timeout || status == efi_no_response
    then again bits buf'
    else done (printed_error status buf' errs)

module _ {W : Type 0} (fw : Firmware W) (sp : SerialPort) where
  -- On a time-out the request to send is taken back.
  unfoldable pub settle : Turn → M W Turn
  unfolding SerialIo.set_control
  settle (done out) = return (done out)
  settle (again bits buf) = do
    _ ← SerialIo.set_control fw sp.addr (bit_and bits (2 ^ 32 - 1 - request_to_send))
    return (again bits buf)

  -- `&buf[0]` panics on an empty buffer.
  unfoldable pub receive : ℕ → List ℕ → ErrMap → M W Turn
  unfolding turn SerialIo.read
  receive bits buf errs = if length buf == 0 then crash else do
    r ← SerialIo.read fw sp.addr (reference (length buf)) (buffer buf)
    settle (turn bits buf errs r)

  -- The control bits of the port, with the request to send put in.
  unfoldable pub request : ℕ → M W ℕ
  unfolding SerialIo.get_control SerialIo.set_control
  request bits = do
    r ← SerialIo.get_control fw sp.addr (reference bits)
    let bits = left_in r 0 bits
    _ ← SerialIo.set_control fw sp.addr (bit_or (bit_or bits request_to_send) data_terminal_ready)
    return bits

  unfoldable pub round : ℕ → List ℕ → ErrMap → M W Turn
  unfolding request
  round bits buf errs = do bits ← request bits; receive bits buf errs

  -- The rounds of Read; `none` is that it has not returned within them.
  unfoldable pub read_rounds : ℕ → ℕ → List ℕ → ErrMap → M W (Option Transfer)
  unfolding round
  read_rounds zero bits buf errs = return none
  read_rounds (suc rounds) bits buf errs = do
    t ← round bits buf errs
    elim t [ done out ↦ return (some out) | again bits buf ↦ read_rounds rounds bits buf errs ]

  unfoldable pub read : ℕ → List ℕ → ErrMap → M W (Option Transfer)
  read rounds buf errs = read_rounds rounds 0 buf errs

  unfoldable pub write : List ℕ → ErrMap → M W Transfer
  unfolding SerialIo.get_control SerialIo.write
  write buf errs = do
    r ← SerialIo.get_control fw sp.addr (reference 0)
    if sp.flow_control && bit_and (left_in r 0 0) clear_to_send == 0
        then return ((0, none, buf), errs)
        else if length buf == 0
        then crash
        else do
          r ← SerialIo.write fw sp.addr (reference (length buf)) (buffer buf)
          let n = left_in r 0 (length buf)
          if r.status == efi_success
              then return ((n, none, buf), errs)
              else do let made = status_error r.status errs; return ((n, made.0, buf), made.1)

  -- The error of Init, and the map of errors. What the write of one byte returns is dropped.
  unfoldable pub init_port : ErrMap → M W (Option Error × ErrMap)
  unfolding SerialIo.reset SerialIo.set_attributes
  init_port errs = do
    r ← SerialIo.reset fw sp.addr
    if r.status == efi_success
        then (do
          out ← write (0 ∷ []) errs
          let errs = out.1
          r ← SerialIo.set_attributes fw sp.addr 115200 0 1 1 8 1
          if r.status == efi_success
              then return (none, errs)
              else return (status_error r.status errs))
        else return (status_error r.status errs)

abbrev pub use_flow_control : SerialPort → Bool → SerialPort
use_flow_control sp fc = record sp { flow_control = fc }
