-- ===== src/Kernel/Cursor.antt =====
-- What the loop of vars of cmd/efiload keeps true of its cursor.
use uki_stub.Common.{
  ℕ, suc, ◌+◌, ◌-◌, ◌*◌, ◌^◌, ◌≤◌, ◌<◌, ◌≡◌, ◌≢◌, refl, sym, ap, ◌∙◌, List, [], ◌∷◌, ◌++◌,
  append_assoc, arith, length, take, drop, replicate, take-append, take-add, drop-append,
  length-append, length-drop, length-take, length-replicate,
}
use uki_stub.Status.{efi_success}
use uki_stub.Utf16.{unit_bytes}
use uki_stub.Kernel.Variables.{efi_buffer_too_small, Cursor, units_of, grown, after_call}

-- A variable of the firmware: its name in units, its vendor, and its value.
pub record Stored : Type 0 where
  pub units : List ℕ
  pub owner : List ℕ
  pub bytes : List ℕ

-- The bytes of a name with its NUL.
abbrev pub room_for : Stored → ℕ
room_for v = 2 * suc (length v.units)

-- The name is not empty, the value neither, and both have a size that fits an int.
abbrev pub IsStored : Stored → Type 0
IsStored v =
    (v.units ≢ []) × (room_for v < 2 ^ 63) × (1 ≤ length v.bytes) × (length v.bytes < 2 ^ 63)

-- A buffer starts with a name and its NUL.
abbrev pub Holds : List ℕ → List ℕ → Type 0
Holds name key = (tail : List ℕ) × (key ≡ name ++ 0 ∷ tail)

pub units_of-unit_bytes : (us : List ℕ) → units_of (unit_bytes us) ≡ us
unfolding units_of unit_bytes
units_of-unit_bytes [] = refl
units_of-unit_bytes (u ∷ us) = ground (arith, units_of-unit_bytes us)

-- The cursor stands on a name, and its slice and its array have the room that it announces.
pub record Inv (name : List ℕ) (c : Cursor) : Type 0 where
  pub here : Holds name c.key
  pub sized : 2 * suc (length name) ≤ c.key_size
  pub announced : c.key_size ≤ 2 * c.key_length
  pub inside : c.key_length ≤ length c.key

take_prefix :
    (front tail : List ℕ) (n : ℕ)
    → length front ≤ n
    → (rest : List ℕ) × (take n (front ++ tail) ≡ front ++ rest)
take_prefix front tail n h =
    let split : length front + (n - length front) ≡ n = omega (arith, h) in
    (
      take (n - length front) tail,
      ap (λ k. take k (front ++ tail)) (sym split)
          ∙ take-add (length front) (n - length front) (front ++ tail)
          ∙ rw (take-append front tail, drop-append front tail) refl,
    )

-- The slice that is grown to a larger size keeps the name.
pub grown-Inv :
    (name : List ℕ) (c : Cursor) (size : ℕ)
    → Inv name c
    → c.key_size ≤ 2 * size
    → Inv name (grown (record c { key_size = 2 * size }))
unfolding grown
grown-Inv name c size inv larger =
    let (tail, key) = inv.here in
    let front = name ++ 0 ∷ [] in
    let front_size = length-append name (0 ∷ []) in
    let blank : List ℕ = replicate (2 * size) 0 in
    let old : c.key ≡ front ++ tail = key ∙ sym (append_assoc name (0 ∷ []) tail) in
    let kept =
      take_prefix front tail c.key_length (omega (arith, front_size, inv.sized, inv.announced)) in
    let longer =
      take_prefix front (kept.0 ++ blank) (2 * size)
        (omega (arith, front_size, inv.sized, larger)) in
    let copied : take c.key_length c.key ++ blank ≡ front ++ (kept.0 ++ blank) =
      ap (λ k. take c.key_length k ++ blank) old
      ∙ ap (λ k. k ++ blank) kept.1
      ∙ append_assoc front kept.0 blank in
    let total = length-append (take c.key_length c.key) blank in
    let room = length-replicate {A = ℕ} (2 * size) 0 in
    record {
      here =
          (longer.0, ap (take (2 * size)) copied ∙ longer.1 ∙ append_assoc name (0 ∷ []) longer.0);
      sized = omega (arith, inv.sized, larger);
      announced = omega arith;
      inside =
          omega (arith, total, room, length-take (2 * size) (take c.key_length c.key ++ blank));
    }

-- The cursor behind an answer that is no name.
pub after_call-too_small :
    (c : Cursor) (size : ℕ)
    → after_call c (record { status = efi_buffer_too_small; refs = size ∷ []; bufs = [] })
      ≡ record c { key_size = size }
unfolding after_call
after_call-too_small c size = rw (units_of-unit_bytes c.key) refl

-- The cursor behind a name.
abbrev pub on : Stored → Cursor → Cursor
on v c = record c {
  key_size = room_for v;
  key = v.units ++ 0 ∷ drop (suc (length v.units)) c.key;
  vendor = v.owner;
}

pub on-Inv :
    (name : List ℕ) (v : Stored) (c : Cursor)
    → Inv name c
    → room_for v ≤ c.key_size
    → Inv v.units (on v c)
on-Inv name v c inv fits =
    let rest = drop (suc (length v.units)) c.key in
    record {
      here = (rest, refl);
      sized = omega arith;
      announced = omega (arith, inv.announced, fits);
      inside = omega (
        arith,
        inv.inside,
        inv.announced,
        fits,
        length-append v.units (0 ∷ rest),
        length-drop (suc (length v.units)) c.key,
      );
    }

pub after_call-on :
    (c : Cursor) (v : Stored)
    → after_call c (record {
      status = efi_success;
      refs = room_for v ∷ [];
      bufs = unit_bytes (v.units ++ 0 ∷ drop (suc (length v.units)) c.key) ∷ v.owner ∷ [];
    })
      ≡ on v c
unfolding after_call
after_call-on c v = rw (units_of-unit_bytes (v.units ++ 0 ∷ drop (suc (length v.units)) c.key)) refl
