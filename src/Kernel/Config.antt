-- ===== src/Kernel/Config.antt =====
-- The configuration that cmd/efi-verify and cmd/efiload read at a fixed address: the length of the
-- kernel in decimal on the first line, the command line on the second. `bytes.SplitN` and
-- `strconv.Atoi` are those of the standard library.
use uki_stub.Common.{
  ℕ, ◌+◌, ◌-◌, ◌*◌, ◌^◌, Bool, true, false, ◌&&◌, Option, none, some, List, [], ◌∷◌, ltb, leb, ◌==◌,
  if◌then◌else◌,
}

-- The bytes before the first line feed, and those behind it, if there is one.
unfoldable pub cut : List ℕ → List ℕ × Option (List ℕ)
cut [] = ([], none)
cut (b ∷ s) = let rest = cut s in if b == 10 then ([], some s) else (b ∷ rest.0, rest.1)

-- `bytes.SplitN(cfg, "\n", 3)`: `parts[0]`, and `parts[1]` if there is one.
unfoldable pub split_config : List ℕ → List ℕ × Option (List ℕ)
unfolding cut
split_config cfg =
    let first = cut cfg in
    (first.0, elim (first.1) [ none ↦ none | some rest ↦ some ((cut rest).0) ])

-- The number of decimal digits behind `n`; `none` is a byte that is no digit. The reading ends with
-- the largest uint64 at the digit that would leave uint64, whatever stands behind it.
unfoldable pub digits : List ℕ → ℕ → Option ℕ
digits [] n = some n
digits (c ∷ s) n =
    let next = n * 10 + (c - 0x30) in
    let rest = digits s next in
    if leb 0x30 c && leb c 0x39
    then (if ltb (2 ^ 64 - 1) next then some (2 ^ 64 - 1) else rest)
    else none

-- An int by its sign and its magnitude.
pub record Signed : Type 0 where
  pub negative : Bool
  pub size : ℕ

abbrev int_zero : Signed
int_zero = record { negative = false; size = 0 }

-- The value of one digit or more: 0 beside an error of syntax, and the nearest int beside an error
-- of range.
unfoldable pub signed : Bool → List ℕ → Signed
unfolding digits
signed negative [] = int_zero
signed negative (c ∷ s) = elim (digits (c ∷ s) 0) [
  | none ↦ int_zero
  | some n ↦
      let limit = if negative then 2 ^ 63 else 2 ^ 63 - 1 in
      record { negative = negative; size = if ltb limit n then limit else n }
]

-- The value of `strconv.Atoi`, whose error is dropped.
unfoldable pub atoi : List ℕ → Signed
unfolding signed
atoi [] = int_zero
atoi (c ∷ s) =
    if c == 0x2d then signed true s else if c == 0x2b then signed false s else signed false (c ∷ s)
