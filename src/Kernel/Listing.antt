-- ===== src/Kernel/Listing.antt =====
-- The listing of the variables by vars of cmd/efiload, on firmware that keeps to what
-- GetNextVariableName and GetVariable promise.
use uki_stub.Common.{
  ℕ, zero, suc, ◌+◌, ◌-◌, ◌*◌, ◌/◌, ◌%◌, ◌^◌, ◌≤◌, ◌<◌, ◌≡◌, ◌≢◌, refl, ap, ◌∙◌, Option, none, some,
  List, [], ◌∷◌, ◌++◌, map, arith, true, false, ltb, lt→ltb, ◌==◌, Bool-cases, inl, inr,
  if◌then◌else◌, length, take, drop, replicate, take-append, length-append, All, ok,
}
use uki_stub.Firmware.{Firmware, Reply, reference, buffer, zeros}
use uki_stub.Status.{efi_success}
use uki_stub.Utf16.{unit_bytes, utf16_to_string}
use uki_stub.Uefi.{field}
use uki_stub.Uefi.Enumerate.{efi_not_found}
use uki_stub.Uefi.RuntimeServices.{get_next_variable_name}
use uki_stub.Kernel.Variables.{
  efi_buffer_too_small, Variable, Cursor, first_cursor, grown, read_variable, getkey, listed, vars,
}
use uki_stub.Kernel.Cursor.{
  Stored, room_for, IsStored, Holds, Inv, grown-Inv, after_call-too_small, on, on-Inv,
  after_call-on,
}

-- What GetNextVariableName leaves in a buffer: the next name with its NUL in front of what stood
-- there, its vendor, and its size, or the size that the name takes.
abbrev pub answer : Option Stored → ℕ → List ℕ → Reply
answer none size key = record { status = efi_not_found; refs = []; bufs = [] }
answer (some v) size key =
    if ltb size (room_for v)
    then record { status = efi_buffer_too_small; refs = room_for v ∷ []; bufs = [] }
    else record {
      status = efi_success;
      refs = room_for v ∷ [];
      bufs = unit_bytes (v.units ++ 0 ∷ drop (suc (length v.units)) key) ∷ v.owner ∷ [];
    }

module _ {W : Type 0} (fw : Firmware W) (st : ℕ) (w : W) where
  -- Firmware that goes from each name to the next, for a buffer that has the room that is announced,
  -- and hands out a value once the buffer is as large as the value. It changes nothing else.
  pub record Answers (next : List ℕ → List ℕ → Option Stored) : Type 0 where
    pub table : ℕ
    pub has_table : field fw st 88 w ≡ (ok table, w)
    pub names :
        (name : List ℕ) (c : Cursor)
        → Holds name c.key
        → c.key_size ≤ 2 * length c.key
        → get_next_variable_name fw table
            (reference c.key_size)
            (buffer (unit_bytes c.key))
            (buffer c.vendor)
            w
          ≡ (ok (answer (next name c.vendor) c.key_size c.key), w)
    pub too_small :
        (name owner : List ℕ) (v : Stored)
        → next name owner ≡ some v
        → IsStored v
        → read_variable fw st (v.units ++ 0 ∷ []) v.owner 0 (zeros 16) w ≡ (
          ok (record { status = efi_buffer_too_small; refs = length v.bytes ∷ []; bufs = [] }),
          w,
        )
    pub values :
        (name owner : List ℕ) (v : Stored)
        → next name owner ≡ some v
        → IsStored v
        → read_variable fw st
            (v.units ++ 0 ∷ [])
            v.owner
            (length v.bytes)
            (zeros (length v.bytes))
            w
          ≡ (
            ok (record {
              status = efi_success;
              refs = length v.bytes ∷ [];
              bufs = unit_bytes (v.units ++ 0 ∷ []) ∷ v.owner ∷ v.bytes ∷ [];
            }),
            w,
          )

-- The variables that follow on a name of a vendor, to the end.
abbrev pub Follow : (List ℕ → List ℕ → Option Stored) → List ℕ → List ℕ → List Stored → Type 0
Follow next name owner [] = next name owner ≡ none
Follow next name owner (v ∷ vs) = (next name owner ≡ some v) × Follow next v.units v.owner vs

-- A variable as vars prints it.
abbrev pub printed : Stored → Variable
printed v = record { name = utf16_to_string v.units; contents = some v.bytes }

take_front : (name rest : List ℕ) → take (suc (length name)) (name ++ 0 ∷ rest) ≡ name ++ 0 ∷ []
take_front [] rest = refl
take_front (u ∷ name) rest = ap (λ l. u ∷ l) (take_front name rest)

some-length : (name : List ℕ) → name ≢ [] → 1 ≤ length name
some-length [] h = absurd (h refl)
some-length (u ∷ name) h = omega arith

module _ {W : Type 0} (fw : Firmware W) (st : ℕ) (w : W) (next : List ℕ → List ℕ → Option Stored)
    (answers : Answers fw st w next) where
  getkey-Stored :
      (name owner : List ℕ) (v : Stored)
      → next name owner ≡ some v
      → IsStored v
      → getkey fw st (v.units ++ 0 ∷ []) v.owner w ≡ (ok (some v.bytes, true), w)
  unfolding getkey
  getkey-Stored name owner v e h =
      ground (arith, answers.too_small name owner v e h, answers.values name owner v e h, h)

  listed-on :
      (name owner : List ℕ) (v : Stored) (c : Cursor)
      → next name owner ≡ some v
      → IsStored v
      → listed fw st (on v c) w ≡ (ok (printed v), w)
  unfolding listed
  listed-on name owner v c e h =
      let rest = drop (suc (length v.units)) c.key in
      let size : (room_for v + (2 ^ 64 - 1)) % 2 ^ 64 / 2 ≡ length v.units = omega (arith, h) in
      let half : room_for v / 2 ≡ suc (length v.units) = omega arith in
      let whole = take-append v.units (0 ∷ rest) in
      let key : take (suc (length v.units)) (v.units ++ 0 ∷ rest) ≡ v.units ++ 0 ∷ [] =
        take_front v.units rest in
      let room = length-append v.units (0 ∷ rest) in
      let some' : 1 ≤ length v.units = some-length v.units h.0 in
      rw (size, half, whole, key) (ground (arith, room, some', getkey-Stored name owner v e h))

  -- What a round asks the firmware for.
  asked :
      (name : List ℕ) (c : Cursor)
      → Inv name c
      → get_next_variable_name fw answers.table
          (reference c.key_size)
          (buffer (unit_bytes c.key))
          (buffer c.vendor)
          w
        ≡ (ok (answer (next name c.vendor) c.key_size c.key), w)
  asked name c inv = answers.names name c inv.here (omega (arith, inv.announced, inv.inside))

  some-key : (name : List ℕ) (c : Cursor) → Inv name c → (c.key_length == 0) ≡ false
  some-key name c inv = ground (arith, inv.sized, inv.announced)

  vars_end :
      (rounds : ℕ) (name : List ℕ) (c : Cursor)
      → Inv name c
      → next name c.vendor ≡ none
      → vars fw st (suc rounds) c w ≡ (ok [], w)
  unfolding vars
  vars_end rounds name c inv e =
      ground (arith, some-key name c inv, answers.has_table, rw e at (asked name c inv))

  vars_small :
      (rounds : ℕ) (name : List ℕ) (c : Cursor) (v : Stored)
      → Inv name c
      → IsStored v
      → next name c.vendor ≡ some v
      → c.key_size < room_for v
      → vars fw st (suc rounds) c w
        ≡ vars fw st rounds (grown (record c { key_size = room_for v })) w
  unfolding vars
  vars_small rounds name c v inv h e small =
      let reply = rw (e, lt→ltb c.key_size (room_for v) small) at (asked name c inv) in
      ground (
        arith,
        some-key name c inv,
        answers.has_table,
        reply,
        after_call-too_small c (room_for v),
        h,
      )

  vars_found :
      (rounds : ℕ) (name : List ℕ) (c : Cursor) (v : Stored) (rest : List Variable)
      → Inv name c
      → IsStored v
      → next name c.vendor ≡ some v
      → room_for v ≤ c.key_size
      → vars fw st rounds (on v c) w ≡ (ok rest, w)
      → vars fw st (suc rounds) c w ≡ (ok (printed v ∷ rest), w)
  unfolding vars
  vars_found rounds name c v rest inv h e fits more =
      let test : ltb c.key_size (room_for v) ≡ false = ground (arith, fits) in
      let reply = rw (e, test) at (asked name c inv) in
      ground (
        arith,
        some-key name c inv,
        answers.has_table,
        reply,
        after_call-on c v,
        listed-on name c.vendor v c e h,
        more,
      )

  -- If the variables follow on the name of the cursor, vars prints them in order.
  vars-Follow :
      (vs : List Stored) (rounds : ℕ) (name : List ℕ) (c : Cursor)
      → Inv name c
      → All IsStored vs
      → Follow next name c.vendor vs
      → 2 * length vs < rounds
      → vars fw st rounds c w ≡ (ok (map printed vs), w)
  vars-Follow vs zero name c inv h f enough = absurd (omega arith)
  vars-Follow [] (suc rounds) name c inv h f enough = vars_end rounds name c inv f
  vars-Follow (v ∷ vs) (suc zero) name c inv h f enough = absurd (omega arith)
  vars-Follow (v ∷ vs) (suc (suc rounds)) name c inv (hv, h) (e, f) enough =
      elim (Bool-cases (ltb c.key_size (room_for v))) [
        | inl small ↦
            let less : c.key_size < room_for v = ground (arith, small) in
            let wide = grown (record c { key_size = room_for v }) in
            let wide-Inv = grown-Inv name c (suc (length v.units)) inv (omega (arith, less)) in
            let same : wide.vendor ≡ c.vendor = unfold grown in refl in
            let size : wide.key_size ≡ room_for v = unfold grown in refl in
            let room : room_for v ≤ wide.key_size = omega (arith, size) in
            vars_small (suc rounds) name c v inv hv e less
            ∙ vars_found rounds name wide v (map printed vs) wide-Inv hv (ap (next name) same ∙ e)
                room
                (vars-Follow vs rounds v.units (on v wide) (on-Inv name v wide wide-Inv room) h f
                  (omega (arith, enough)))
        | inr fits ↦
            let room : room_for v ≤ c.key_size = ground (arith, fits) in
            vars_found (suc rounds) name c v (map printed vs) inv hv e room (
              vars-Follow vs (suc rounds) v.units (on v c) (on-Inv name v c inv room) h f
                (omega (arith, enough)))
      ]

  -- On firmware that keeps to what GetNextVariableName and GetVariable promise, and that goes from
  -- the empty name through these variables to its end, vars returns within more than twice as many
  -- rounds as there are variables, and prints each with its name and its value, in order.
  pub vars-first_cursor :
      (vs : List Stored) (rounds : ℕ)
      → All IsStored vs
      → Follow next [] (replicate 16 0) vs
      → 2 * length vs < rounds
      → vars fw st rounds first_cursor w ≡ (ok (map printed vs), w)
  vars-first_cursor vs rounds h f enough =
      vars-Follow vs rounds [] first_cursor
        (record {
          here = ([], refl);
          sized = omega arith;
          announced = omega arith;
          inside = omega arith;
        })
        h f enough
