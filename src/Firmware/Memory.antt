-- ===== src/Firmware/Memory.antt =====
-- encode and decode of pkg/ueficore/desc.go on the same place of the memory.
use uki_stub.Common.{ℕ, ◌+◌, ◌%◌, ◌≡◌, ◌≢◌, ◌∙◌, ap, List, [], append-nil, arith, length, ok}
use uki_stub.Wire.{size_of, marshal}
use uki_stub.Wire.RoundTrip.{Fits, length-marshal, unmarshal-marshal}
use uki_stub.Firmware.{Firmware, encode, decode, ◌>>=◌, >>=-ok}

-- At an address other than 0, decode reads back the values that encode wrote, if each fits its
-- field, the package dma finds the region to write, and then the written bytes in the region to read.
pub decode-encode :
    {W : Type 0} (fw : Firmware W) (layout values : List ℕ) (addr : ℕ) (old : List ℕ) (w : W)
    → addr ≢ 0
    → Fits layout values
    → fw.region addr (size_of layout) (size_of layout) w ≡ ok old
    → fw.region addr
        (size_of layout + size_of layout % 8)
        (size_of layout)
        (fw.store addr (marshal layout values) w)
      ≡ ok (marshal layout values)
    → (encode fw layout values addr >>= (λ _. decode fw layout addr)) w
      ≡ (ok values, fw.store addr (marshal layout values) w)
unfolding encode decode
decode-encode fw layout values addr old w somewhere fits found kept =
    let bytes = marshal layout values in
    let whole = rw append-nil at (unmarshal-marshal layout values [] fits) in
    let size = length-marshal layout values in
    let room : fw.region addr (length bytes) (length bytes) w ≡ ok old =
      ap (λ n. fw.region addr n n w) size ∙ found in
    let written : encode fw layout values addr w ≡ (ok tt, fw.store addr bytes w) =
      ground (arith, somewhere, room) in
    let read : decode fw layout addr (fw.store addr bytes w) ≡ (ok values, fw.store addr bytes w) =
      ground (arith, somewhere, kept, whole) in
    >>=-ok (encode fw layout values addr) (λ _. decode fw layout addr) w written ∙ read
