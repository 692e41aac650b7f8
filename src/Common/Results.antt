-- ===== src/Common/Results.antt =====
-- What a Go function hands back: a value, a non-nil `error`, or a run-time panic.
use Prim.Native.Nat.{ℕ, ◌+◌, ◌-◌, ◌≤◌, ◌<◌}
use mathlib.Core.Bool.{Bool, true, false, ◌&&◌}
use mathlib.Core.List.{List, ◌++◌}
use mathlib.Core.Path.{◌≡◌, refl, ap, ◌∙◌}
use uki_stub.Common.Tests.{leb, if◌then◌else◌}
use uki_stub.Common.Lists.{length, take, drop, length-drop, length-append, take-append}
use native.Mathlib.Omega.{arith}

-- Where a command was when the error arose that it wraps in a text.
pub data Stage : Type 0 where
  root_volume opening reading loading : Stage

-- The errors that the packages build, one constructor for each message; those of the commands
-- contain the error that they report. `unfinished` is no error of the code: a loop did not end
-- within the rounds that it was given.
pub data Failure : Type 0 where
  efi_status : ℕ → Failure
  invalid_address : Failure
  invalid_file_instance : Failure
  invalid_file_system : Failure
  invalid_revision : Failure
  invalid_system_table : Failure
  invalid_configuration : Failure
  invalid_length : Failure
  nodes_limit : Failure
  buffer_too_small : Failure
  region_error : Failure
  eof : Failure
  during : Stage → Failure → Failure
  unfinished : Failure

abbrev pub is_eof : Failure → Bool
is_eof eof = true
is_eof _ = false

pub data Outcome {ℓ} (A : Type ℓ) : Type ℓ where
  ok : A → Outcome A
  err : Failure → Outcome A
  panic : Outcome A

infixl 5 ◌>>=◌
abbrev pub ◌>>=◌ {ℓ κ} : {A : Type ℓ} {B : Type κ} → Outcome A → (A → Outcome B) → Outcome B
ok a >>= f = f a
err e >>= f = err e
panic >>= f = panic

-- Go's `buf[lo:hi]`: a slice expression out of range panics.
abbrev pub slice : List ℕ → ℕ → ℕ → Outcome (List ℕ)
slice buf lo hi =
    if leb lo hi && leb hi (length buf) then ok (take (hi - lo) (drop lo buf)) else panic

pub slice-ok :
    (buf : List ℕ) (lo n : ℕ)
    → lo + n ≤ length buf
    → slice buf lo (lo + n) ≡ ok (take n (drop lo buf))
slice-ok buf lo n h = ground arith

pub slice-append :
    (i n : ℕ) (buf front behind : List ℕ)
    → drop i buf ≡ front ++ behind
    → length front ≡ n
    → 0 < n
    → slice buf i (i + n) ≡ ok front
slice-append i n buf front behind e len some' =
    let total = length-drop i buf in
    let parts = ap length e ∙ length-append front behind in
    let fits : i + n ≤ length buf = omega (arith, total, parts, len, some') in
    let front' : take n (drop i buf) ≡ front =
      ap (take n) e ∙ rw len at (take-append front behind) in
    slice-ok buf i n fits ∙ ap ok front'

-- A chain that led to a value had a value at its first link.
pub first_link {ℓ κ} :
    {A : Type ℓ} {B : Type κ} {last : B} (step : A → Outcome B) (start : Outcome A)
    → start >>= step ≡ ok last
    → (a : A) × (start ≡ ok a) × (step a ≡ ok last)
first_link step panic e = cc
first_link step (err failure) e = cc
first_link step (ok a) e = (a, refl, e)
