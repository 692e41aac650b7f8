-- ===== src/Services/Image.antt =====
-- BootServices.LoadImage of pkg/ueficore/image.go, and `fs.ReadFile` of the standard library, which
-- it reads the file with.
use uki_stub.Common.{
  ℕ, zero, suc, ◌+◌, ◌-◌, ◌^◌, Option, none, some, List, [], ◌++◌, ltb, leb, ◌==◌, if◌then◌else◌,
  length, take, Failure, is_eof, unfinished, ok, err, panic,
}
use uki_stub.Firmware.{Firmware, M, attempt, check, crash, fail, return, zeros, ◌>>=◌}
use uki_stub.Services.Boot.{BootServices}
use uki_stub.Services.Files.{
  File, FileSystem, fs_open, stat, read, close, load_image_mem, file_info_size,
}

-- `grow` is the capacity that `append` gives to a full slice.
module _ {W : Type 0} (fw : Firmware W) (grow : ℕ → ℕ) where
  -- The loop of ReadFile, in so many rounds, on a slice with its capacity: the bytes and the error
  -- that is not the end of the file.
  unfoldable pub read_to_end : ℕ → File → ℕ → List ℕ → M W (List ℕ × Option Failure)
  read_to_end zero f cap b = fail unfinished
  read_to_end (suc rounds) f cap b = do
    let cap = if leb cap (length b) then grow cap else cap
    (count, buf, e) ← read fw f (zeros (cap - length b))
    if ltb (length buf) count then crash else elim e [
      | none ↦ read_to_end rounds f cap (b ++ take count buf)
      | some e ↦ return (b ++ take count buf, if is_eof e then none else some e)
    ]

  -- The size that Stat reports, as an int, or 0 beside its error, and one byte more; `make` panics on
  -- a capacity below 0.
  unfoldable pub first_capacity : File → M W ℕ
  unfolding file_info_size
  first_capacity f = do
    t ← attempt (stat fw f)
    elim t [
      | ok info ↦
          if file_info_size info == 2 ^ 64 - 1
          then return 0
          else if leb (2 ^ 63 - 1) (file_info_size info)
          then crash
          else return (file_info_size info + 1)
      | err _ ↦ return 1
      | panic ↦ crash
    ]

  -- The file is closed behind the reading, and the error of Close is dropped.
  unfoldable pub read_file : ℕ → FileSystem → List ℕ → M W (List ℕ × Option Failure)
  read_file rounds root name = do
    f ← fs_open fw root name
    cap ← first_capacity f
    out ← read_to_end rounds f cap []
    _ ← close fw f
    return out

  -- The image is loaded from the bytes of the file.
  unfoldable pub load_image : ℕ → BootServices → ℕ → FileSystem → List ℕ → M W (ℕ × Option Failure)
  load_image rounds s boot root name = do
    (bytes, e) ← read_file rounds root name
    bytes ← check bytes e
    load_image_mem fw s boot root name bytes
