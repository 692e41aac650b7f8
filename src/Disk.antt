-- ===== src/Disk.antt =====
-- pkg/uefi/media_io_protocol.go: a disk as an io.ReaderAt and io.WriterAt over the EFI disk
-- protocol. The map of errors of efistatus.go is part of the state.
pub mod Transfer
use uki_stub.Common.{
  ℕ, ◌+◌, ◌-◌, ◌*◌, ◌/◌, ◌%◌, ◌^◌, Bool, not, Option, none, some, List, [], ◌∷◌, map, leb, ◌==◌,
  if◌then◌else◌, length, get_or,
}
use uki_stub.Firmware.{Firmware, Request, Reply, value, buffer, at, held}
use uki_stub.Status.{efi_success}
use uki_stub.Status.ErrorMap.{Error, ErrMap, status_error}

-- EFI_BLOCK_IO_MEDIA
pub record Media : Type 0 where
  pub media_id : ℕ
  pub removable_media : Bool
  pub media_present : Bool
  pub logical_partition : Bool
  pub read_only : Bool
  pub write_caching : Bool
  pub block_size : ℕ
  pub io_align : ℕ
  pub last_block : ℕ

-- EFI_BLOCK_IO_PROTOCOL, behind its address. `none` is a nil pointer.
pub record BlockIo : Type 0 where
  pub addr : ℕ
  pub revision : ℕ
  pub media : Option Media
  pub reset : ℕ
  pub read_blocks : ℕ
  pub write_blocks : ℕ
  pub flush_blocks : ℕ

-- EFI_DISK_IO_PROTOCOL, behind its address.
pub record DiskIo : Type 0 where
  pub addr : ℕ
  pub revision : ℕ
  pub read_disk : ℕ
  pub write_disk : ℕ

pub record Disk : Type 0 where
  pub disk_io : Option DiskIo
  pub block_io : Option BlockIo

pub data DiskError : Type 0 where
  disk_not_ready no_media_present negative_offset write_protected : DiskError
  status : Error → DiskError

-- The guards on nil pointers: the medium behind a disk, and both protocols of a disk.
unfoldable pub media_of : Option Disk → Option Media
media_of none = none
media_of (some d) = elim (d.block_io) [ none ↦ none | some b ↦ b.media ]

unfoldable pub protocols : Option Disk → Option (DiskIo × Media)
protocols none = none
protocols (some d) = elim (d.disk_io) [
  | none ↦ none
  | some io ↦ elim (d.block_io) [
    | none ↦ none
    | some b ↦ elim (b.media) [ none ↦ none | some m ↦ some (io, m) ]
  ]
]

-- Size, as the bits of the int64.
unfoldable pub disk_size : Option Disk → ℕ
unfolding media_of
disk_size d = elim (media_of d) [
  | none ↦ 0
  | some m ↦ ((m.last_block + 1) % 2 ^ 64) * m.block_size % 2 ^ 64
]

unfoldable pub sector_size : Option Disk → ℕ
unfolding media_of
sector_size d = elim (media_of d) [ none ↦ 0 | some m ↦ m.block_size ]

abbrev pub disk_error : Option Error → Option DiskError
disk_error none = none
disk_error (some e) = some (status e)

-- An int64 below 0, by its bits.
abbrev pub is_negative : ℕ → Bool
is_negative off = leb (2 ^ 63) off

-- What an operation hands back: the count, the error, the buffer, and the state.
abbrev pub Result : Type 0 → Type 0
Result W = (ℕ × Option DiskError × List ℕ) × W × ErrMap

module _ {W : Type 0} (fw : Firmware W) where
  -- UefiCall5 hands the address of the function to callFn.
  abbrev pub disk_call : ℕ → DiskIo → Media → List ℕ → ℕ → W → Reply × W
  disk_call fn io m p off w =
      fw.call
        (record {
          fn = at fn;
          args = value io.addr ∷ value m.media_id ∷ value off ∷ value (length p) ∷ buffer p ∷ [];
        })
        w

  -- The end of ReadAt and WriteAt: all bytes, or the error of the status.
  abbrev pub outcome : List ℕ → List ℕ → Reply × W → ErrMap → Result W
  outcome p q r errs =
      if r.0.status == efi_success
      then ((length p, none, q), r.1, errs)
      else let failed = status_error r.0.status errs in ((0, disk_error failed.0, q), r.1, failed.1)

  unfoldable pub read_at : Option Disk → List ℕ → ℕ → W → ErrMap → Result W
  unfolding protocols
  read_at d p off w errs = elim (protocols d) [
    | none ↦ ((0, some disk_not_ready, p), w, errs)
    | some (io, m) ↦
        if not m.media_present
        then ((0, some no_media_present, p), w, errs)
        else if is_negative off
        then ((0, some negative_offset, p), w, errs)
        else if length p == 0
        then ((0, none, p), w, errs)
        else let r = disk_call io.read_disk io m p off w in outcome p (get_or r.0.bufs 0 p) r errs
  ]

  -- The medium is not asked whether it is present.
  unfoldable pub write_at : Option Disk → List ℕ → ℕ → W → ErrMap → Result W
  unfolding protocols
  write_at d p off w errs = elim (protocols d) [
    | none ↦ ((0, some disk_not_ready, p), w, errs)
    | some (io, m) ↦
        if m.read_only
        then ((0, some write_protected, p), w, errs)
        else if is_negative off
        then ((0, some negative_offset, p), w, errs)
        else if length p == 0
        then ((0, none, p), w, errs)
        else outcome p p (disk_call io.write_disk io m p off w) errs
  ]

  unfoldable pub flush : Option Disk → W → ErrMap → Option DiskError × W × ErrMap
  flush d w errs =
      let block_io : Option BlockIo = elim d [ none ↦ none | some d ↦ d.block_io ] in
      elim block_io [
        | none ↦ (some disk_not_ready, w, errs)
        | some b ↦
            let r = fw.call (record { fn = held b.flush_blocks; args = value b.addr ∷ [] }) w in
            if r.0.status == efi_success
            then (none, r.1, errs)
            else let failed = status_error r.0.status errs in (disk_error failed.0, r.1, failed.1)
      ]
