-- ===== src/Tests/Image.antt =====
-- LoadImage on firmware with a file of five bytes.
use uki_stub.Common.{
  ℕ, ◌+◌, ◌≡◌, refl, none, some, List, [], ◌∷◌, ◌++◌, arith, length, take, drop, take-append,
  length-append, replicate, ok, err, efi_status, ◌==◌, if◌then◌else◌,
}
use uki_stub.Wire.{marshal}
use uki_stub.Status.{parse_status}
use uki_stub.Status.ErrorMap.{error_status}
use uki_stub.Firmware.{Firmware, Arg, Entry, reference, held, Reply, zeros, length-zeros, decode}
use uki_stub.Services.Files.{
  File, FileSystem, file_protocol_layout, file_protocol_of, fs_open, protocol_open, read_protocol,
  stat, get_info, close, load_image_mem,
}
use uki_stub.Services.Image.{load_image, first_capacity}
use uki_stub.Services.Failing.{Reads, Fails, now, behind, load_image-Fails}
use uki_stub.Services.Reading.{IsServed}
use uki_stub.Services.Whole.{load_image-load_image_mem}

-- The functions of a file are 1 to 10, in the order of the struct; open is 1 and read is 4.
abbrev functions : List ℕ
functions = 0x10000 ∷ 1 ∷ 2 ∷ 3 ∷ 4 ∷ 5 ∷ 6 ∷ 7 ∷ 8 ∷ 9 ∷ 10 ∷ []

abbrev refused : Reply
refused = record { status = error_status 3; refs = []; bufs = [] }

-- The state is what is not yet read.
abbrev serve : Entry → List Arg → List ℕ → Reply × List ℕ
serve (held fn) (_ ∷ reference n ∷ _) bytes =
    if fn == 4
    then (
      record {
        status = 0;
        refs = length (take n bytes) ∷ [];
        bufs = (take n bytes ++ zeros n) ∷ [];
      },
      drop n bytes,
    )
    else if fn == 1
    then (record { status = 0; refs = 4096 ∷ []; bufs = [] }, bytes)
    else (refused, bytes)
serve fn args bytes = (refused, bytes)

abbrev with_file : Firmware (List ℕ)
with_file = record {
  call = λ q bytes. serve q.fn q.args bytes;
  region = λ addr size count bytes. ok (marshal file_protocol_layout functions);
  load = λ addr size bytes. replicate size 0;
  store = λ addr bs bytes. bytes;
}

abbrev opened : File
opened = record { file = file_protocol_of functions; addr = 4096; name = 0x41 ∷ [] }

abbrev volume : FileSystem
volume = record {
  image = none;
  device = 0;
  addr = 4096;
  fs = record { revision = 0x10000; open_volume_fn = 0 };
  volume = some opened;
}

abbrev five : List ℕ
five = 5 ∷ 6 ∷ 7 ∷ 8 ∷ 9 ∷ []

fs_open-with_file : fs_open with_file volume (0x41 ∷ []) five ≡ (ok opened, five)
unfolding fs_open parse_status protocol_open read_protocol decode marshal
fs_open-with_file = refl

-- Stat is refused, so the first slice has no bytes to spare but one.
first_capacity-with_file : first_capacity with_file (λ c. c + c + 1) opened five ≡ (ok 1, five)
unfolding first_capacity stat get_info parse_status
first_capacity-with_file = refl

with_file-IsServed : IsServed with_file opened (λ bytes. bytes)
with_file-IsServed n bytes some' = (
  refl,
  refl,
  omega (arith, length-append (take n bytes) (zeros n)),
  take-append (take n bytes) (zeros n),
  refl,
)

load_image-load_image_mem_example :
    (w3 : List ℕ) × (w3 ≡ [])
    × (load_image with_file
          (λ c. c + c + 1)
          6
          (record { base = 80; image_handle = 3 })
          0
          volume
          (0x41 ∷ [])
          five
        ≡ load_image_mem with_file
            (record { base = 80; image_handle = 3 })
            0
            volume
            (0x41 ∷ [])
            five
            (close with_file opened w3).1)
load_image-load_image_mem_example =
    load_image-load_image_mem with_file opened (λ bytes. bytes) (λ c. c + c + 1) 6
      (record { base = 80; image_handle = 3 }) 0 volume (0x41 ∷ []) 1 five five five (omega arith)
      fs_open-with_file first_capacity-with_file with_file-IsServed (λ c. omega arith) (omega arith)

-- The same file on a device that fails behind the first read, where it still reports a byte.
abbrev broken : Reply
broken = record { status = error_status 7; refs = 1 ∷ []; bufs = [] }

abbrev serve_once : Entry → List Arg → List ℕ → Reply × List ℕ
serve_once (held fn) args bytes =
    if fn == 4
    then (if length bytes == 5 then serve (held fn) args bytes else (broken, bytes))
    else serve (held fn) args bytes
serve_once fn args bytes = (refused, bytes)

abbrev failing : Firmware (List ℕ)
failing = record with_file { call = λ q bytes. serve_once q.fn q.args bytes }

abbrev four : List ℕ
four = 6 ∷ 7 ∷ 8 ∷ 9 ∷ []

fs_open-failing : fs_open failing volume (0x41 ∷ []) five ≡ (ok opened, five)
unfolding fs_open parse_status protocol_open read_protocol decode marshal
fs_open-failing = refl

first_capacity-failing : first_capacity failing (λ c. c + c + 1) opened five ≡ (ok 1, five)
unfolding first_capacity stat get_info parse_status
first_capacity-failing = refl

Reads-first :
    Reads failing opened 1 five
      (record { status = 0; refs = 1 ∷ []; bufs = (5 ∷ zeros 1) ∷ [] })
      four
Reads-first = record {
  asks = omega arith;
  called = refl;
  some_bytes = omega arith;
  fits = omega (arith, length-zeros 1);
}

Reads-broken : Reads failing opened 2 four broken four
Reads-broken = record {
  asks = omega arith;
  called = refl;
  some_bytes = omega arith;
  fits = omega (arith, length-zeros 2);
}

Fails-second : Fails failing opened (λ c. c + c + 1) 1 1 [] five (error_status 7) four
Fails-second = behind Reads-first refl (now Reads-broken refl (omega arith))

load_image-Fails_example :
    load_image failing
      (λ c. c + c + 1)
      6
      (record { base = 80; image_handle = 3 })
      0
      volume
      (0x41 ∷ [])
      five
    ≡ (err (efi_status (error_status 7)), (close failing opened four).1)
load_image-Fails_example =
    load_image-Fails failing opened (λ e. absurd (omega arith)) (λ c. c + c + 1) 6
      (record { base = 80; image_handle = 3 }) 0 volume (0x41 ∷ []) 1 five five five fs_open-failing
      first_capacity-failing Fails-second (omega arith)
