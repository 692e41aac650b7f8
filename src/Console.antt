-- ===== src/Console.antt =====
-- pkg/ueficore/console.go: the console over the EFI text protocols, and printk of
-- pkg/ueficore/x64/console.go.
pub mod Output
pub mod Input
use uki_stub.Common.{
  ℕ, zero, suc, ◌+◌, ◌-◌, ◌/◌, ◌%◌, ◌^◌, Bool, true, false, ◌&&◌, not, Option, none, some, List, [],
  ◌∷◌, ◌++◌, ltb, ◌==◌, if◌then◌else◌, get_or, take, drop, Failure, slice,
}
use uki_stub.Status.{parse_status, efi_not_ready}
use uki_stub.Firmware.{
  Firmware, M, Arg, value, reference, buffer, Reply, Entry, at, call_service, call_status, return,
  crash, ◌>>=◌,
}
use uki_stub.Utf8.{runes}
use uki_stub.Utf16.{encode}
use uki_stub.Wire.{le_value}

pub record Console : Type 0 where
  pub force_line : Bool
  pub replace_tabs : ℕ
  pub input : ℕ
  pub output : ℕ

abbrev pub tab : ℕ
tab = 0x09

abbrev pub lf : ℕ
lf = 0x0a

abbrev pub cr : ℕ
cr = 0x0d

abbrev pub space : ℕ
space = 0x20

-- Cursor Back, which Write turns into a backspace.
abbrev pub cub : List ℕ
cub = 0x1b ∷ 0x5b ∷ 0x44 ∷ 0x20 ∷ 0x1b ∷ 0x5b ∷ 0x44 ∷ []

unfoldable pub bytes_equal : List ℕ → List ℕ → Bool
bytes_equal [] [] = true
bytes_equal [] (b ∷ q) = false
bytes_equal (a ∷ p) [] = false
bytes_equal (a ∷ p) (b ∷ q) = a == b && bytes_equal p q

unfoldable pub spaces : ℕ → List ℕ
spaces zero = []
spaces (suc n) = space ∷ 0 ∷ spaces n

-- The loop of Write over the UTF-16 units; `s` is what it has appended so far.
unfoldable pub translate : Console → List ℕ → List ℕ → List ℕ
unfolding spaces
translate c [] s = s
translate c (r ∷ b) s = translate c b (
    if r == tab && ltb 0 c.replace_tabs
    then s ++ spaces c.replace_tabs
    else if r == lf && c.force_line
    then s ++ (r % 256) ∷ (r / 256) ∷ cr ∷ 0 ∷ []
    else s ++ (r % 256) ∷ (r / 256) ∷ [])

unfoldable pub last_byte : List ℕ → Option ℕ
last_byte [] = none
last_byte (b ∷ []) = some b
last_byte (b ∷ c ∷ p) = last_byte (c ∷ p)

-- What Output sends: a NUL byte is added behind a last byte that is not 0. An empty slice panics.
unfoldable pub terminated : List ℕ → Option (List ℕ)
unfolding last_byte
terminated p = elim (last_byte p) [
  | none ↦ none
  | some b ↦ some (if b == 0 then p else p ++ 0 ∷ [])
]

-- The text that Write sends on, as a buffer of bytes.
unfoldable pub text : Console → List ℕ → List ℕ
unfolding bytes_equal translate
text c p = translate c (encode (runes (if bytes_equal cub p then 0x08 ∷ 0 ∷ [] else p))) []

-- InputKey, the key that Input fills in.
pub record InputKey : Type 0 where
  pub scan_code : ℕ
  pub unicode_char : List ℕ

module _ {W : Type 0} (fw : Firmware W) (c : Console) where
  unfoldable pub clear_screen : M W (Option Failure)
  unfolding call_status
  clear_screen =
      if c.output == 0
      then return none
      else call_status fw (at ((c.output + 0x30) % 2 ^ 64)) (value c.output ∷ [])

  unfoldable pub set_mode : ℕ → M W (Option Failure)
  unfolding call_status
  set_mode mode =
      if c.output == 0
      then return none
      else call_status fw (at ((c.output + 0x20) % 2 ^ 64)) (value c.output ∷ value mode ∷ [])

  unfoldable pub set_attribute : ℕ → M W (Option Failure)
  unfolding call_status
  set_attribute attr =
      if c.output == 0
      then return none
      else call_status fw (at ((c.output + 0x28) % 2 ^ 64)) (value c.output ∷ value attr ∷ [])

  unfoldable pub output : List ℕ → M W ℕ
  unfolding call_service
  output p = elim (terminated p) [
    | none ↦ crash
    | some q ↦ if c.output == 0 then return 0 else do
      r ← call_service fw (at ((c.output + 0x08) % 2 ^ 64)) (value c.output ∷ buffer q ∷ [])
      return r.status
  ]

  -- The count of bytes that Write reports is never set.
  unfoldable pub write : List ℕ → M W (ℕ × Option Failure)
  write [] = return (0, none)
  write (a ∷ p) = do status ← output (text c (a ∷ p)); return (0, parse_status status)

  -- The status, and the key after the call: its four bytes are a buffer.
  unfoldable pub input : InputKey → M W (ℕ × InputKey)
  unfolding call_service le_value
  input k = if c.input == 0 then return (0, k) else do
    r ←
        call_service fw (at ((c.input + 0x08) % 2 ^ 64))
          (value c.input ∷ buffer ((k.scan_code % 256) ∷ (k.scan_code / 256) ∷ k.unicode_char) ∷ [])
    let bytes = get_or r.bufs 0 ((k.scan_code % 256) ∷ (k.scan_code / 256) ∷ k.unicode_char)
    return (
      r.status,
      record { scan_code = le_value (take 2 bytes); unicode_char = take 2 (drop 2 bytes) },
    )

  -- The loop of Read over the rest of the buffer: the count from here on, the bytes, the error.
  unfoldable pub read_keys : InputKey → List ℕ → M W (ℕ × List ℕ × Option Failure)
  read_keys k [] = return (0, [], none)
  read_keys k (a ∷ []) = do
    (status, k') ← input k
    if status % 256 == efi_not_ready
        then return (0, a ∷ [], none)
        else if not (status == 0)
        then return (0, a ∷ [], parse_status status)
        else if ltb 0 k'.scan_code
        then crash
        else return (2, get_or k'.unicode_char 0 a ∷ [], none)
  read_keys k (a ∷ b ∷ p) = do
    (status, k') ← input k
    if status % 256 == efi_not_ready
        then return (0, a ∷ b ∷ p, none)
        else if not (status == 0)
        then return (0, a ∷ b ∷ p, parse_status status)
        else do
          (n, q, e) ← read_keys k' p
          return (
            n + 2,
            (if ltb 0 k'.scan_code then k'.scan_code % 256 else get_or k'.unicode_char 0 a)
                ∷ (if ltb 0 k'.scan_code then k'.scan_code / 256 else get_or k'.unicode_char 1 b)
                ∷ q,
            e,
          )

  unfoldable pub read : List ℕ → M W (ℕ × List ℕ × Option Failure)
  read p = read_keys (record { scan_code = 0; unicode_char = 0 ∷ 0 ∷ [] }) p

  -- printk of x64/console.go, for one byte.
  unfoldable pub printk : ℕ → M W (Unit {0})
  printk b = if c.output == 0 then return tt else do
    _ ← output (b ∷ [])
    if b == lf && c.force_line then (do _ ← output (cr ∷ []); return tt) else return tt
