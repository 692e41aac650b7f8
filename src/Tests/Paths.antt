-- ===== src/Tests/Paths.antt =====
-- Device paths.
use uki_stub.Common.{
  ℕ, zero, suc, ◌≤◌, ◌≡◌, refl, ◌≢◌, List, [], ◌∷◌, ◌++◌, arith, length, take, drop, replicate,
  All-take, All-drop, All, ok, panic,
}
use uki_stub.Firmware.{zeros, length-zeros}
use uki_stub.Wire.{le_value, fields}
use uki_stub.Wire.RoundTrip.{IsByte}
use uki_stub.Utf16.{to_utf16}
use uki_stub.DevicePath.{
  DevicePathNode, DevicePath, device_path, node_bytes, end_node, file_path, file_node,
}
use uki_stub.DevicePath.Scan.{
  IsNode, IsShort, encode_path, header_at, device_path_sound, device_path-ne-panic,
}
use uki_stub.DevicePath.RoundTrip.{device_path-encode_path, device_path_short}
use uki_stub.DevicePath.Files.{file_device, file_path_reparse}

zeros-IsByte : (n : ℕ) → All IsByte (zeros n)
unfolding zeros
zeros-IsByte zero = tt
zeros-IsByte (suc n) = (omega arith, zeros-IsByte n)

-- A hard drive node with its 8 bytes cut to 2.
abbrev drive : DevicePath
drive = record { node = record { type = 4; sub_type = 1; length = 6 }; content = 1 ∷ 2 ∷ [] }

abbrev drives : ℕ → List DevicePath
drives n = replicate n drive

device_path-encode_path_example :
    device_path (ok (encode_path (drives 2) ++ (node_bytes end_node ++ 5 ∷ [])))
    ≡ ok (drives 2, encode_path (drives 2))
device_path-encode_path_example =
    device_path-encode_path (drives 2) (5 ∷ []) (ground arith) (ground arith) (omega arith)

-- An end node and nothing else in the 64 KiB.
abbrev empty_path : List ℕ
empty_path = encode_path [] ++ (node_bytes end_node ++ zeros 65532)

empty_path-length : length empty_path ≡ 65536
unfolding encode_path node_bytes
empty_path-length = omega (arith, length-zeros 65532)

empty_path-IsByte : All IsByte empty_path
unfolding encode_path node_bytes
empty_path-IsByte = (omega arith, (omega arith, (omega arith, (omega arith, zeros-IsByte 65532))))

device_path_sound_example :
    All IsNode [] × (length {A = DevicePath} [] ≤ 15) × (encode_path [] ≡ encode_path [])
device_path_sound_example =
    device_path_sound empty_path {p = ([], encode_path [])} empty_path-IsByte empty_path-length
      (device_path-encode_path [] (zeros 65532) tt tt (omega arith))

abbrev short_node : DevicePathNode
short_node = record { type = 4; sub_type = 4; length = 3 }

device_path_short_example :
    device_path (ok (encode_path [] ++ (node_bytes short_node ++ zeros 65532))) ≡ panic
device_path_short_example =
    device_path_short [] short_node (zeros 65532) tt tt (omega arith) (omega arith) (omega arith)
      refl (unfold encode_path node_bytes in omega (arith, length-zeros 65532))

abbrev IsZero : ℕ → Type 0
IsZero b = b ≡ 0

zeros-IsZero : (n : ℕ) → All IsZero (zeros n)
unfolding zeros
zeros-IsZero zero = tt
zeros-IsZero (suc n) = (refl, zeros-IsZero n)

le_value-IsZero : (bs : List ℕ) → All IsZero bs → le_value bs ≡ 0
unfolding le_value
le_value-IsZero [] h = refl
le_value-IsZero (b ∷ bs) (hb, h) = omega (arith, hb, le_value-IsZero bs h)

header_length-IsZero : (buf : List ℕ) (off : ℕ) → All IsZero buf → (header_at buf off).length ≡ 0
unfolding fields
header_length-IsZero buf off h =
    let head = All-take IsZero 4 (drop off buf) (All-drop IsZero off buf h) in
    let length_bytes = drop 1 (drop 1 (take 4 (drop off buf))) in
    le_value-IsZero (take 2 length_bytes)
      (All-take IsZero 2 length_bytes (All-drop IsZero 1 _ (All-drop IsZero 1 _ head)))

zeros-not-IsShort : (off : ℕ) → ¬ IsShort (header_at (zeros 65536) off)
zeros-not-IsShort off (h, _) =
    absurd (omega (arith, h, header_length-IsZero (zeros 65536) off (zeros-IsZero 65536)))

device_path-ne-panic_example : device_path (ok (zeros 65536)) ≢ panic
device_path-ne-panic_example =
    device_path-ne-panic (zeros 65536) zeros-not-IsShort (length-zeros 65536)

file_path_reparse_example :
    (out : List ℕ) × (file_path
        (ok (encode_path (drives 1) ++ (node_bytes end_node ++ [])))
        (0x5c ∷ 0x41 ∷ [])
      ≡ ok (drives 1, file_node (0x5c ∷ 0x41 ∷ []), out))
    × (device_path (ok (out ++ 9 ∷ []))
        ≡ ok (
          drives 1 ++ file_device (0x5c ∷ 0x41 ∷ []) ∷ [],
          encode_path (drives 1 ++ file_device (0x5c ∷ 0x41 ∷ []) ∷ []),
        ))
file_path_reparse_example =
    file_path_reparse (ok (encode_path (drives 1) ++ (node_bytes end_node ++ []))) (drives 1)
      (0x5c ∷ 0x41 ∷ []) (9 ∷ [])
      (device_path-encode_path (drives 1) [] (ground arith) (ground arith) (omega arith))
      (ground arith) (ground arith) (omega arith) (unfold to_utf16 in omega arith)
