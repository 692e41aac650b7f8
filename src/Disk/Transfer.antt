-- ===== src/Disk/Transfer.antt =====
-- What ReadAt and WriteAt of pkg/uefi/media_io_protocol.go promise.
use uki_stub.Common.{
  ℕ, ◌^◌, ◌<◌, ◌≡◌, refl, ◌≢◌, ◌⊎◌, inl, inr, false, Option, none, some, List, arith, ◌==◌,
  Bool-cases, Option-cases, length, get_or,
}
use uki_stub.Firmware.{Firmware, Reply}
use uki_stub.Status.ErrorMap.{ErrMap, status_error-some}
use uki_stub.Disk.{
  status, disk_not_ready, no_media_present, negative_offset, write_protected, Disk, DiskIo, Media,
  DiskError, protocols, is_negative, outcome, disk_call, read_at, write_at,
}

-- All bytes and no error, or no bytes and an error.
abbrev pub IsTransfer : ℕ → ℕ → Option DiskError → Type 0
IsTransfer size n e = ((n ≡ size) × (e ≡ none)) ⊎ ((n ≡ 0) × (e ≢ none))

module _ {W : Type 0} (fw : Firmware W) where
  failed : (size : ℕ) (x : DiskError) → IsTransfer size 0 (some x)
  failed size x = inr (refl, λ e. cc)

  outcome-IsTransfer :
      (p q : List ℕ) (r : Reply × W) (errs : ErrMap)
      → IsTransfer (length p) (outcome fw p q r errs).0.0 (outcome fw p q r errs).0.1
  outcome-IsTransfer p q r errs = elim (Bool-cases (r.0.status == 0)) [
    | inl fine ↦ rw fine (inl (refl, refl))
    | inr bad ↦
        let (x, e) = status_error-some r.0.status errs (ground (arith, bad)) in
        rw bad (rw e (failed (length p) (status x)))
  ]

  read_at-IsTransfer :
      (d : Option Disk) (p : List ℕ) (off : ℕ) (w : W) (errs : ErrMap)
      → IsTransfer (length p) (read_at fw d p off w errs).0.0 (read_at fw d p off w errs).0.1
  unfolding read_at
  read_at-IsTransfer d p off w errs = elim (Option-cases (protocols d)) [
    | inl e ↦ rw (e, read_at) (failed (length p) disk_not_ready)
    | inr ((io, m), e) ↦
        rw (e, read_at)
          (elim (Bool-cases m.media_present) [
            | inr absent ↦ rw absent (failed (length p) no_media_present)
            | inl present ↦ rw present (elim (Bool-cases (is_negative off)) [
              | inl below ↦ rw below (failed (length p) negative_offset)
              | inr fine ↦ rw fine (elim (Bool-cases (length p == 0)) [
                | inl empty ↦ rw empty (inl (ground (arith, empty), refl))
                | inr some' ↦ rw some' (
                    outcome-IsTransfer p
                      (get_or (disk_call fw io.read_disk io m p off w).0.bufs 0 p)
                      (disk_call fw io.read_disk io m p off w) errs)
              ])
            ])
          ])
  ]

  write_at-IsTransfer :
      (d : Option Disk) (p : List ℕ) (off : ℕ) (w : W) (errs : ErrMap)
      → IsTransfer (length p) (write_at fw d p off w errs).0.0 (write_at fw d p off w errs).0.1
  unfolding write_at
  write_at-IsTransfer d p off w errs = elim (Option-cases (protocols d)) [
    | inl e ↦ rw (e, write_at) (failed (length p) disk_not_ready)
    | inr ((io, m), e) ↦
        rw (e, write_at)
          (elim (Bool-cases m.read_only) [
            | inl protected ↦ rw protected (failed (length p) write_protected)
            | inr writable ↦ rw writable (elim (Bool-cases (is_negative off)) [
              | inl below ↦ rw below (failed (length p) negative_offset)
              | inr fine ↦ rw fine (elim (Bool-cases (length p == 0)) [
                | inl empty ↦ rw empty (inl (ground (arith, empty), refl))
                | inr some' ↦
                    rw some' (outcome-IsTransfer p p (disk_call fw io.write_disk io m p off w) errs)
              ])
            ])
          ])
  ]

  -- The contracts of io.ReaderAt and io.WriterAt: ReadAt and WriteAt each report all bytes of the
  -- buffer and no error, or no bytes and an error, for every disk, buffer, offset and answer of the
  -- firmware.
  pub disk-IsTransfer :
      (d : Option Disk) (p : List ℕ) (off : ℕ) (w : W) (errs : ErrMap)
      → IsTransfer (length p) (read_at fw d p off w errs).0.0 (read_at fw d p off w errs).0.1
        × IsTransfer (length p) (write_at fw d p off w errs).0.0 (write_at fw d p off w errs).0.1
  disk-IsTransfer d p off w errs =
      (read_at-IsTransfer d p off w errs, write_at-IsTransfer d p off w errs)

  -- The machine is left as it is, or the disk is writable, the offset is not below 0, the buffer is
  -- not empty, and the firmware was called once, for this medium, offset and buffer.
  pub write_at_guard :
      (d : Option Disk) (p : List ℕ) (off : ℕ) (w : W) (errs : ErrMap)
      → ((write_at fw d p off w errs).1 ≡ w)
        ⊎ ((io : DiskIo) × (m : Media) × (protocols d ≡ some (io, m))
            × (m.read_only ≡ false)
            × (off < 2 ^ 63)
            × (length p ≢ 0)
            × ((write_at fw d p off w errs).1 ≡ (disk_call fw io.write_disk io m p off w).1))
  unfolding write_at
  write_at_guard d p off w errs = elim (Option-cases (protocols d)) [
    | inl e ↦ inl (rw (e, write_at) refl)
    | inr ((io, m), e) ↦ elim (Bool-cases m.read_only) [
      | inl protected ↦ inl (ground (arith, e, protected))
      | inr writable ↦ elim (Bool-cases (is_negative off)) [
        | inl below ↦ inl (ground (arith, e, writable, below))
        | inr fine ↦ elim (Bool-cases (length p == 0)) [
          | inl empty ↦ inl (ground (arith, e, writable, fine, empty))
          | inr some' ↦ inr (
            io,
            m,
            e,
            writable,
            ground (arith, fine),
            ground (arith, some'),
            ground (arith, e, writable, fine, some'),
          )
        ]
      ]
    ]
  ]
