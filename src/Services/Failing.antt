-- ===== src/Services/Failing.antt =====
-- What LoadImage of pkg/ueficore/image.go does with a file that the firmware fails to read.
use uki_stub.Common.{
  ℕ, zero, suc, ◌-◌, ◌^◌, ◌<◌, ◌≤◌, ◌≡◌, ◌≢◌, ap, ◌∙◌, Option, none, some, List, [], ◌++◌, arith,
  length, take, get_or, leb, ltb, if◌then◌else◌, is_eof, Failure, efi_status, ok, err, ◌∷◌, ◌⊎◌,
  inl, inr,
}
use uki_stub.Firmware.{
  Firmware, Request, Reply, M, value, reference, buffer, held, left_in, zeros, length-zeros,
  call_service, crash, return, >>=-ok,
}
use uki_stub.Status.{parse_status}
use uki_stub.Services.Boot.{BootServices}
use uki_stub.Services.Files.{File, FileSystem, fs_open, protocol_read, read, close}
use uki_stub.Services.Image.{read_to_end, first_capacity, read_file, load_image}
use uki_stub.Services.Reading.{read_request}
use uki_stub.Services.Whole.{close_ok}

-- The room for the next read, as `append` leaves it.
abbrev pub room : (ℕ → ℕ) → ℕ → List ℕ → ℕ
room grow cap b = if leb cap (length b) then grow cap else cap

-- The firmware answers a read of `n` bytes with at least one byte, in a buffer that holds them.
pub record Reads {W : Type 0} (fw : Firmware W) (f : File) (n : ℕ) (w : W) (r : Reply) (w' : W)
    : Type 0 where
  pub asks : n ≢ 0
  pub called : fw.call (read_request f n) w ≡ (r, w')
  pub some_bytes : left_in r 0 n ≢ 0
  pub fits : left_in r 0 n ≤ length (get_or r.bufs 0 (zeros n))

-- The reading behind `b` goes well so many times, and then the firmware answers with an error status.
pub data Fails {W : Type 0} (fw : Firmware W) (f : File) (grow : ℕ → ℕ)
    : ℕ → ℕ → List ℕ → W → ℕ → W → Type 0 where
  now :
      {cap status : ℕ} {b : List ℕ} {w w' : W} {r : Reply}
      → Reads fw f (room grow cap b - length b) w r w'
      → r.status ≡ status
      → 2 ^ 63 ≤ status
      → Fails fw f grow 0 cap b w status w'
  behind :
      {k cap status : ℕ} {b : List ℕ} {w w1 w' : W} {r : Reply}
      → Reads fw f (room grow cap b - length b) w r w1
      → r.status ≡ 0
      → Fails fw f grow k
          (room grow cap b)
          (b
            ++ take
                (left_in r 0 (room grow cap b - length b))
                (get_or r.bufs 0 (zeros (room grow cap b - length b))))
          w1
          status
          w'
      → Fails fw f grow (suc k) cap b w status w'

module _ {W : Type 0} (fw : Firmware W) (f : File) (opened : f.addr ≢ 0) where
  read_bytes :
      (buf : List ℕ) (r : Reply) (w w' : W)
      → length buf ≢ 0
      → fw.call
          (record {
            fn = held f.file.read_fn;
            args = value f.addr ∷ reference (length buf) ∷ buffer buf ∷ [];
          })
          w
        ≡ (r, w')
      → left_in r 0 (length buf) ≢ 0
      → (r.status ≡ 0) ⊎ (2 ^ 63 ≤ r.status)
      → read fw f buf w
        ≡ (ok (left_in r 0 (length buf), get_or r.bufs 0 buf, parse_status r.status), w')
  unfolding read protocol_read call_service
  read_bytes buf r w w' some' called count (inl fine) =
      ground (arith, called, fine, opened, some', count)
  read_bytes buf r w w' some' called count (inr bad) =
      ground (arith, called, bad, opened, some', count)

  read-Reads :
      (n : ℕ) (r : Reply) (w w' : W)
      → Reads fw f n w r w'
      → (r.status ≡ 0) ⊎ (2 ^ 63 ≤ r.status)
      → read fw f (zeros n) w
        ≡ (ok (left_in r 0 n, get_or r.bufs 0 (zeros n), parse_status r.status), w')
  read-Reads n r w w' reads status =
      let ask : ℕ → Request = λ k. record {
        fn = held f.file.read_fn;
        args = value f.addr ∷ reference k ∷ buffer (zeros n) ∷ [];
      } in
      let same = length-zeros n in
      rw same at (
        read_bytes (zeros n) r w w' (omega (arith, same, reads.asks))
          (ap (λ k. fw.call (ask k) w) same ∙ reads.called) (rw same reads.some_bytes) status)

  module _ (grow : ℕ → ℕ) where
    abbrev next : ℕ → ℕ → List ℕ → ℕ × List ℕ × Option Failure → M W (List ℕ × Option Failure)
    next rounds cap b r =
        let (count, buf, e) = r in
        if ltb (length buf) count then crash else elim e [
          | none ↦ read_to_end fw grow rounds f cap (b ++ take count buf)
          | some e ↦ return (b ++ take count buf, if is_eof e then none else some e)
        ]

    next_error :
        (rounds cap count status : ℕ) (b buf : List ℕ) (w : W)
        → count ≤ length buf
        → 2 ^ 63 ≤ status
        → next rounds cap b (count, buf, parse_status status) w
          ≡ (ok (b ++ take count buf, some (efi_status status)), w)
    unfolding parse_status
    next_error rounds cap count status b buf w fits bad = ground (arith, fits, bad)

    next_fine :
        (rounds cap count status : ℕ) (b buf : List ℕ) (w : W)
        → count ≤ length buf
        → status ≡ 0
        → next rounds cap b (count, buf, parse_status status) w
          ≡ read_to_end fw grow rounds f cap (b ++ take count buf) w
    unfolding parse_status
    next_fine rounds cap count status b buf w fits fine = ground (arith, fits, fine)

    read_to_end-Fails :
        (rounds : ℕ) {k cap status : ℕ} {b : List ℕ} {w w' : W}
        → Fails fw f grow k cap b w status w'
        → k < rounds
        → (bytes : List ℕ) × (read_to_end fw grow rounds f cap b w
            ≡ (ok (bytes, some (efi_status status)), w'))
    unfolding read_to_end
    read_to_end-Fails zero fails h = absurd (omega arith)
    read_to_end-Fails (suc n) {cap = cap} {status = status} {b = b} {w = w} {w' = w'}
          (now {r = r} reads said bad) h =
        let size = room grow cap b - length b in
        let high : 2 ^ 63 ≤ r.status = omega (arith, said, bad) in
        let got = read-Reads size r w w' reads (inr high) in
        (
          _,
          >>=-ok (read fw f (zeros size)) (next n (room grow cap b) b) w got
              ∙ next_error n (room grow cap b) (left_in r 0 size) r.status b
                  (get_or r.bufs 0 (zeros size)) w' reads.fits high
              ∙ ap
                  (λ (s : ℕ). (
                    ok (
                      b ++ take (left_in r 0 size) (get_or r.bufs 0 (zeros size)),
                      some (efi_status s),
                    ),
                    w',
                  ))
                  said,
        )
    read_to_end-Fails (suc n) {cap = cap} {b = b} {w = w} (behind {w1 = w1} {r = r} reads fine rest)
          h =
        let size = room grow cap b - length b in
        let got = read-Reads size r w w1 reads (inl fine) in
        let (bytes, fails) = read_to_end-Fails n rest (omega arith) in
        (
          bytes,
          >>=-ok (read fw f (zeros size)) (next n (room grow cap b) b) w got
              ∙ next_fine n (room grow cap b) (left_in r 0 size) r.status b
                  (get_or r.bufs 0 (zeros size)) w1 reads.fits fine
              ∙ fails,
        )

    -- If a file that is open is read some times with bytes and success, and then the firmware
    -- answers with an error status of 64 bits, its top bit set, beside at least one byte, then
    -- LoadImage closes the file, loads no image and reports that status, given more rounds than
    -- reads that went well. This holds for EFI_DEVICE_ERROR too, which is not taken for the end of
    -- the file.
    pub load_image-Fails :
        (rounds : ℕ) (s : BootServices) (boot : ℕ) (root : FileSystem) (name : List ℕ) (cap : ℕ)
        (w w1 w2 : W) {k status : ℕ} {w3 : W}
        → fs_open fw root name w ≡ (ok f, w1)
        → first_capacity fw grow f w1 ≡ (ok cap, w2)
        → Fails fw f grow k cap [] w2 status w3
        → k < rounds
        → load_image fw grow rounds s boot root name w
          ≡ (err (efi_status status), (close fw f w3).1)
    unfolding load_image read_file
    load_image-Fails rounds s boot root name cap w w1 w2 {w3 = w3} found sized fails enough =
        let (bytes, whole) = read_to_end-Fails rounds fails enough in
        let (e, closed) = close_ok fw f (λ (w : W). []) grow w3 opened in
        ground (arith, found, sized, whole, closed)
