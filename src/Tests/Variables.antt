-- ===== src/Tests/Variables.antt =====
-- The variables of a firmware, listed.
use uki_stub.Common.{
  ℕ, ◌≡◌, refl, ap, ◌∙◌, Option, none, some, List, [], ◌∷◌, ◌++◌, arith, ltb, if◌then◌else◌, length,
  replicate, ok, ◌⊎◌, inl, inr, lt→ltb, false,
}
use uki_stub.Firmware.{Firmware, Reply, Arg, value, reference, buffer, zeros}
use uki_stub.Guid.{codes}
use uki_stub.Utf16.{unit_bytes, until_nul}
use uki_stub.Uefi.{field, word}
use uki_stub.Wire.{le_value}
use uki_stub.Uefi.Enumerate.{efi_not_found}
use uki_stub.Uefi.RuntimeServices.{get_next_variable_name, get_variable}
use uki_stub.Status.{efi_success}
use uki_stub.Kernel.Variables.{vars, first_cursor, units_of, efi_buffer_too_small, read_variable}
use uki_stub.Kernel.Cursor.{Stored, units_of-unit_bytes}
use uki_stub.Kernel.Listing.{answer, Answers, printed, vars-first_cursor}

abbrev short : Stored
short = record { units = codes "A"; owner = replicate 16 1; bytes = 1 ∷ [] }

abbrev long : Stored
long = record { units = codes "Boot"; owner = replicate 16 2; bytes = 2 ∷ 3 ∷ [] }

-- The variable behind a name, which ends in front of its first NUL.
unfoldable after : List ℕ → Option Stored
after [] = some short
after (u ∷ []) = some long
after (u ∷ v ∷ name) = none

abbrev next : List ℕ → List ℕ → Option Stored
next name owner = after (until_nul name)

-- The variable of a name.
unfoldable stored : List ℕ → Option Stored
stored [] = none
stored (u ∷ []) = some short
stored (u ∷ v ∷ name) = some long

abbrev get : Option Stored → List ℕ → List ℕ → ℕ → Reply
get none key vendor size = record { status = efi_not_found; refs = []; bufs = [] }
get (some v) key vendor size =
    if ltb size (length v.bytes)
    then record { status = efi_buffer_too_small; refs = length v.bytes ∷ []; bufs = [] }
    else record {
      status = efi_success;
      refs = length v.bytes ∷ [];
      bufs = key ∷ vendor ∷ v.bytes ∷ [];
    }

unfoldable replied : List Arg → Reply
replied (reference size ∷ buffer key ∷ buffer vendor ∷ []) =
    answer (after (until_nul (units_of key))) size (units_of key)
replied (buffer key ∷ buffer vendor ∷ value a ∷ reference size ∷ buffer contents ∷ []) =
    get (stored (until_nul (units_of key))) key vendor size
replied _ = record { status = 1; refs = []; bufs = [] }

abbrev keeping : Firmware ℕ
keeping = record {
  call = λ q w. (replied q.args, w);
  region = λ addr size count w. ok (replicate count 0);
  load = λ addr size w. 16 ∷ replicate 7 0;
  store = λ addr bs w. w;
}

until_nul-Holds : (name tail : List ℕ) → until_nul (name ++ 0 ∷ tail) ≡ until_nul name
unfolding until_nul
until_nul-Holds [] tail = refl
until_nul-Holds (u ∷ name) tail = ground (arith, until_nul-Holds name tail)

after-cases : (name : List ℕ) (v : Stored) → after name ≡ some v → (v ≡ short) ⊎ (v ≡ long)
unfolding after
after-cases [] v e = inl (cc (e))
after-cases (u ∷ []) v e = inr (cc (e))
after-cases (u ∷ t ∷ name) v e = absurd (cc (e))

read_small :
    (v : Stored)
    → (v ≡ short) ⊎ (v ≡ long)
    → read_variable keeping 4096 (v.units ++ 0 ∷ []) v.owner 0 (zeros 16) 0
      ≡ (ok (get (some v) [] [] 0), 0)
unfolding field word le_value read_variable get_variable replied stored until_nul units_of
    unit_bytes zeros
read_small v (inl s) = rw s refl
read_small v (inr l) = rw l refl

read_whole :
    (v : Stored)
    → (v ≡ short) ⊎ (v ≡ long)
    → read_variable keeping 4096
        (v.units ++ 0 ∷ [])
        v.owner
        (length v.bytes)
        (zeros (length v.bytes))
        0
      ≡ (ok (get (some v) (unit_bytes (v.units ++ 0 ∷ [])) v.owner (length v.bytes)), 0)
unfolding field word le_value read_variable get_variable replied stored until_nul units_of
    unit_bytes zeros
read_whole v (inl s) = rw s refl
read_whole v (inr l) = rw l refl

answers : Answers keeping 4096 0 next
unfolding field get_next_variable_name replied
answers = record {
  table = 16;
  has_table = refl;
  names = λ name c (tail, key) room.
      let same = units_of-unit_bytes c.key in
      let cut = ap until_nul key ∙ until_nul-Holds name tail in rw (same, cut) refl;
  too_small = λ name owner v e h.
      rw (lt→ltb 0 (length v.bytes) h.2) at (read_small v (after-cases (until_nul name) v e));
  values = λ name owner v e h.
      let fits : ltb (length v.bytes) (length v.bytes) ≡ false = ground arith in
      rw fits at (read_whole v (after-cases (until_nul name) v e));
}

vars-first_cursor_example :
    vars keeping 4096 5 first_cursor 0 ≡ (ok (printed short ∷ printed long ∷ []), 0)
unfolding after until_nul
vars-first_cursor_example =
    vars-first_cursor keeping 4096 0 next answers (short ∷ long ∷ []) 5
      (
        (cc, omega arith, omega arith, omega arith),
        ((cc, omega arith, omega arith, omega arith), tt),
      )
      (refl, (refl, refl)) (omega arith)
