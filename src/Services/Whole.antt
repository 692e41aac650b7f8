-- ===== src/Services/Whole.antt =====
-- What LoadImage of pkg/ueficore/image.go loads from a file of the firmware.
use uki_stub.Common.{
  ℕ, ◌<◌, ◌≡◌, ◌≢◌, refl, Option, none, List, [], arith, length, Failure, ok, ◌==◌, Bool-cases, inl,
  inr,
}
use uki_stub.Firmware.{Firmware, call_status, call_service}
use uki_stub.Services.Boot.{BootServices}
use uki_stub.Services.Files.{File, FileSystem, fs_open, protocol_close, close, load_image_mem}
use uki_stub.Services.Image.{first_capacity, read_file, load_image}
use uki_stub.Services.Reading.{IsServed, read_to_end-rest}

module _ {W : Type 0} (fw : Firmware W) (f : File) (rest : W → List ℕ) (grow : ℕ → ℕ) where
  pub close_ok :
      (w : W) → f.addr ≢ 0 → (e : Option Failure) × (close fw f w ≡ (ok e, (close fw f w).1))
  unfolding close protocol_close call_status call_service
  close_ok w opened = elim (Bool-cases (f.addr == 0)) [
    | inl closed ↦ absurd (ground (arith, closed, opened))
    | inr open' ↦ rw open' (_, refl)
  ]

  read_file-rest :
      (rounds : ℕ) (root : FileSystem) (name : List ℕ) (cap : ℕ) (w w1 w2 : W)
      → f.addr ≢ 0
      → fs_open fw root name w ≡ (ok f, w1)
      → first_capacity fw grow f w1 ≡ (ok cap, w2)
      → IsServed fw f rest
      → ((c : ℕ) → c < grow c)
      → length (rest w2) < rounds
      → (w3 : W) × (rest w3 ≡ [])
        × (read_file fw grow rounds root name w ≡ (ok (rest w2, none), (close fw f w3).1))
  unfolding read_file
  read_file-rest rounds root name cap w w1 w2 opened found sized served grows enough =
      let (w3, whole, done) =
        read_to_end-rest fw f rest grow rounds cap [] w2 opened served grows (omega arith) enough in
      let (e, closed) = close_ok w3 opened in
      (w3, done, ground (arith, found, sized, whole, closed))

  -- If the file can be opened and its size can be asked for, the firmware serves its bytes read by
  -- read, and append grows a full slice, then LoadImage does what LoadImageMem does with all the
  -- bytes of the file, once the file is read to its end and closed, given more rounds than bytes.
  pub load_image-load_image_mem :
      (rounds : ℕ) (s : BootServices) (boot : ℕ) (root : FileSystem) (name : List ℕ) (cap : ℕ)
      (w w1 w2 : W)
      → f.addr ≢ 0
      → fs_open fw root name w ≡ (ok f, w1)
      → first_capacity fw grow f w1 ≡ (ok cap, w2)
      → IsServed fw f rest
      → ((c : ℕ) → c < grow c)
      → length (rest w2) < rounds
      → (w3 : W) × (rest w3 ≡ [])
        × (load_image fw grow rounds s boot root name w
            ≡ load_image_mem fw s boot root name (rest w2) (close fw f w3).1)
  unfolding load_image
  load_image-load_image_mem rounds s boot root name cap w w1 w2 opened found sized served grows
        enough =
      let (w3, done, whole) =
        read_file-rest rounds root name cap w w1 w2 opened found sized served grows enough in
      (w3, done, ground (arith, whole))
