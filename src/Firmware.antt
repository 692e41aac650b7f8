-- ===== src/Firmware.antt =====
-- pkg/ueficore/uefi.go, CallService, and the reading of structs in pkg/ueficore/desc.go: how the
-- Go code meets the firmware. The firmware, the assembly stub callFn and the package
-- `tamago/dma` are not Go code of the repository: they are the fields of `Firmware`, over a state
-- `W` of the machine that each call may change.
pub mod Memory
pub mod Lock
pub mod Exclusion
pub mod Overlap
pub mod Sequential
use uki_stub.Common.{
  ℕ, ◌+◌, ◌*◌, ◌^◌, ◌%◌, ◌≡◌, refl, ap, Option, none, some, List, arith, ◌==◌, if◌then◌else◌,
  length, get_or, replicate, length-replicate, Failure, invalid_address, Outcome, ok, err, panic,
}
use uki_stub.Status.{parse_status}
use uki_stub.Wire.{size_of, marshal, unmarshal}

-- An argument of a call: a number, the address of a Go variable with the number it holds, or the
-- address of the first byte of a buffer.
pub data Arg : Type 0 where
  value : ℕ → Arg
  reference : ℕ → Arg
  buffer : List ℕ → Arg

-- What is called: the function whose address stands at an address, as in the slot of a firmware
-- table, or a function by its own address.
pub data Entry : Type 0 where
  at : ℕ → Entry
  held : ℕ → Entry

pub record Request : Type 0 where
  pub fn : Entry
  pub args : List Arg

-- The status, and what the call left in the variables and in the buffers, in the order of the
-- arguments.
pub record Reply : Type 0 where
  pub status : ℕ
  pub refs : List ℕ
  pub bufs : List (List ℕ)

pub record Firmware (W : Type 0) : Type 0 where
  pub call : Request → W → Reply × W
  -- `dma.NewRegion(addr, size)` and `Reserve(count)` on it: an error, or the bytes there.
  pub region : ℕ → ℕ → ℕ → W → Outcome (List ℕ)
  -- A read of so many bytes, and a write, through an `unsafe.Pointer`.
  pub load : ℕ → ℕ → W → List ℕ
  pub store : ℕ → List ℕ → W → W

-- Go code that calls the firmware: it ends with an outcome and leaves a state behind.
abbrev pub M : Type 0 → Type 0 → Type 0
M W A = W → Outcome A × W

infixl 5 ◌>>=◌
abbrev pub ◌>>=◌ : {W A B : Type 0} → M W A → (A → M W B) → M W B
◌>>=◌ m f w =
    let r = m w in elim (r.0) [ ok a ↦ f a r.1 | err e ↦ (err e, r.1) | panic ↦ (panic, r.1) ]

abbrev pub return : {W A : Type 0} → A → M W A
return a w = (ok a, w)

abbrev pub fail : {W A : Type 0} → Failure → M W A
fail e w = (err e, w)

abbrev pub crash : {W A : Type 0} → M W A
crash w = (panic, w)

abbrev pub lift : {W A : Type 0} → Outcome A → M W A
lift o w = (o, w)

abbrev pub observe : {W A : Type 0} → (W → Outcome A) → M W A
observe f w = (f w, w)

-- A call whose error is looked at.
abbrev pub attempt : {W A : Type 0} → M W A → M W (Outcome A)
attempt m w =
    let r = m w in
    elim (r.0) [ ok a ↦ (ok (ok a), r.1) | err e ↦ (ok (err e), r.1) | panic ↦ (panic, r.1) ]

-- `if err != nil { return }` behind a call that hands back a value beside its error.
abbrev pub check : {W A : Type 0} → A → Option Failure → M W A
check a none = return a
check a (some e) = fail e

module _ {W : Type 0} (fw : Firmware W) where
  unfoldable pub call_service : Entry → List Arg → M W Reply
  call_service fn args w = let r = fw.call (record { fn = fn; args = args }) w in (ok r.0, r.1)

  -- CallServiceTable: slot `idx` of a table, behind its header of 24 bytes.
  unfoldable pub call_service_table : ℕ → ℕ → List Arg → M W Reply
  unfolding call_service
  call_service_table table_ptr idx args =
      call_service (at ((table_ptr + 24 + 8 * idx) % 2 ^ 64)) args

  -- `return parseStatus(CallService(fn, args))`
  unfoldable pub call_status : Entry → List Arg → M W (Option Failure)
  unfolding call_service
  call_status fn args = do r ← call_service fn args; return (parse_status r.status)

  -- decode: the fields of the struct at an address. The region is larger than the struct by its
  -- size modulo 8.
  unfoldable pub decode : List ℕ → ℕ → M W (List ℕ)
  unfolding unmarshal
  decode layout addr =
      let n = size_of layout in
      if addr == 0
      then fail invalid_address
      else do buf ← observe (fw.region addr (n + n % 8) n); lift (unmarshal layout buf)

  -- encode: the bytes of the struct into a region of their size.
  unfoldable pub encode : List ℕ → List ℕ → ℕ → M W (Unit {0})
  encode layout values addr =
      let buf = marshal layout values in
      if addr == 0 then fail invalid_address else do
        _ ← observe (fw.region addr (length buf) (length buf))
        (λ w. (ok tt, fw.store addr buf w))

-- `make([]byte, n)`
unfoldable pub zeros : ℕ → List ℕ
zeros n = replicate n 0

pub length-zeros : (n : ℕ) → length (zeros n) ≡ n
unfolding zeros
length-zeros n = length-replicate n 0

-- The number that a call left in the variable of its `i`-th reference.
abbrev pub left_in : Reply → ℕ → ℕ → ℕ
left_in r i old = get_or r.refs i old

chain-eq-ok :
    {W A B : Type 0} (r : Outcome A × W) (f : A → M W B) {b : B} {w' : W}
    → ((λ (w : W). r) >>= f) r.1 ≡ (ok b, w')
    → (a : A) × (w1 : W) × (r ≡ (ok a, w1)) × (f a w1 ≡ (ok b, w'))
chain-eq-ok (ok a, w1) f e = (a, w1, refl, e)
chain-eq-ok (err x, w1) f e = absurd (ground arith)
chain-eq-ok (panic, w1) f e = absurd (ground arith)

-- Inversion of a chain that led to a value.
pub >>=-eq-ok :
    {W A B : Type 0} (m : M W A) (f : A → M W B) (w : W) {b : B} {w' : W}
    → (m >>= f) w ≡ (ok b, w')
    → (a : A) × (w1 : W) × (m w ≡ (ok a, w1)) × (f a w1 ≡ (ok b, w'))
>>=-eq-ok m f w e = chain-eq-ok (m w) f e

pub >>=-ok :
    {W A B : Type 0} (m : M W A) (f : A → M W B) (w : W) {a : A} {w1 : W}
    → m w ≡ (ok a, w1)
    → (m >>= f) w ≡ f a w1
>>=-ok m f w e = ap (λ r. ((λ (_ : _). r) >>= f) w) e
