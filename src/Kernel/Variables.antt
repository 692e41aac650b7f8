-- ===== src/Kernel/Variables.antt =====
-- getkey and vars of cmd/efiload/main.go: the listing of the firmware's variables, through the
-- package uefi. A slice of CHAR16 is a list of units; the firmware reads and writes their bytes.
use uki_stub.Common.{
  ℕ, zero, suc, ◌+◌, ◌-◌, ◌*◌, ◌/◌, ◌%◌, ◌^◌, Bool, true, false, ◌||◌, Option, none, some, List, [],
  ◌∷◌, ◌++◌, ltb, leb, ◌==◌, if◌then◌else◌, length, take, replicate, get_or, unfinished,
}
use uki_stub.Firmware.{
  Firmware, M, Reply, value, reference, buffer, left_in, return, fail, crash, ◌>>=◌, zeros,
}
use uki_stub.Status.{efi_success}
use uki_stub.Status.ErrorMap.{error_status}
use uki_stub.Utf16.{unit_bytes, utf16_to_string}
use uki_stub.Uefi.{field}
use uki_stub.Uefi.Enumerate.{efi_not_found}
use uki_stub.Uefi.RuntimeServices.{get_variable, get_next_variable_name}

abbrev pub efi_buffer_too_small : ℕ
efi_buffer_too_small = error_status 5

-- The units that stand in bytes.
unfoldable pub units_of : List ℕ → List ℕ
units_of (low ∷ high ∷ bytes) = (low + 256 * high) ∷ units_of bytes
units_of _ = []

-- `make` panics on a length from 2 ^ 63 on. A lack of memory is not modelled.
abbrev pub is_too_long : ℕ → Bool
is_too_long n = leb (2 ^ 63) n

-- A variable as it is listed: its name in runes and its value, where there is one.
pub record Variable : Type 0 where
  pub name : List ℕ
  pub contents : Option (List ℕ)

-- The state of the loop of vars: the slice varKey with its length and its array, varKeySize, and
-- the vendor's GUID.
pub record Cursor : Type 0 where
  pub key_length : ℕ
  pub key : List ℕ
  pub key_size : ℕ
  pub vendor : List ℕ

abbrev pub first_cursor : Cursor
first_cursor = record { key_length = 1; key = 0 ∷ []; key_size = 2; vendor = replicate 16 0 }

-- The slice grown to the size that the firmware asked for.
unfoldable pub grown : Cursor → Cursor
grown c = record c {
  key_length = c.key_size / 2;
  key = take c.key_size (take c.key_length c.key ++ replicate c.key_size 0);
}

-- What a call of GetNextVariableName left.
unfoldable pub after_call : Cursor → Reply → Cursor
unfolding units_of unit_bytes
after_call c r = record c {
  key_size = left_in r 0 c.key_size;
  key = units_of (get_or r.bufs 0 (unit_bytes c.key));
  vendor = get_or r.bufs 1 c.vendor;
}

module _ {W : Type 0} (fw : Firmware W) (st : ℕ) where
  -- RuntimeServices.GetVariable of ST() for a name, a vendor and a buffer. `&key[0]` and `&data[0]`
  -- panic on empty slices.
  unfoldable pub read_variable : List ℕ → List ℕ → ℕ → List ℕ → M W Reply
  unfolding field get_variable unit_bytes
  read_variable key vendor size contents = do
    rt ← field fw st 88
    if length key == 0 || length contents == 0
        then crash
        else get_variable fw rt (buffer (unit_bytes key)) (buffer vendor) (value 0) (reference size)
            (buffer contents)

  -- getkey: the value, or nil, and whether it was found. `data[0:dataSize]` of 16 bytes panics for a
  -- larger size.
  unfoldable pub getkey : List ℕ → List ℕ → M W (Option (List ℕ) × Bool)
  getkey key vendor = do
    r ← read_variable key vendor 0 (zeros 16)
    let size = left_in r 0 0
    if r.status == efi_not_found
        then return (none, false)
        else if r.status == efi_buffer_too_small
        then (if is_too_long size then crash else do
          again ← read_variable key vendor size (zeros size)
          return (
              if again.status == efi_success
              then (some (get_or again.bufs 2 (zeros size)), true)
              else (none, false)))
        else if ltb 16 size
        then crash
        else return (some (take size (get_or r.bufs 2 (zeros 16))), false)

  -- What vars prints of the variable that was found. The slices panic beyond the array, and a name
  -- without a unit before its NUL panics in UTF16ToString.
  unfoldable pub listed : Cursor → M W Variable
  listed c =
      let name = (c.key_size + (2 ^ 64 - 1)) % 2 ^ 64 / 2 in
      if ltb (length c.key) name || (ltb (length c.key) (c.key_size / 2) || name == 0)
      then crash
      else do
        (contents, _) ← getkey (take (c.key_size / 2) c.key) c.vendor
        return (record { name = utf16_to_string (take name c.key); contents = contents })

  -- vars, in so many rounds: what it prints. Another status than these panics.
  unfoldable pub vars : ℕ → Cursor → M W (List Variable)
  vars zero c = fail unfinished
  vars (suc rounds) c = if c.key_length == 0 then crash else do
    rt ← field fw st 88
    r ←
        get_next_variable_name fw rt (reference c.key_size) (buffer (unit_bytes c.key))
          (buffer c.vendor)
    let c = after_call c r
    if r.status == efi_buffer_too_small
        then (if is_too_long c.key_size then crash else vars rounds (grown c))
        else if r.status == efi_success
        then (do v ← listed c; rest ← vars rounds c; return (v ∷ rest))
        else if r.status == efi_not_found
        then return []
        else crash
