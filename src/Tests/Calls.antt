-- ===== src/Tests/Calls.antt =====
-- Calls of the firmware.
use uki_stub.Common.{
  ℕ, suc, ◌≤◌, ◌≡◌, refl, ◌≢◌, ◌⊎◌, Option, none, some, List, [], ◌∷◌, arith, ◌==◌, if◌then◌else◌,
  length, replicate, Failure, ok,
}
use uki_stub.Firmware.{Firmware, decode}
use uki_stub.Status.{parse_status}
use uki_stub.Wire.{fields}
use uki_stub.Services.Boot.{
  BootServices, load_image_handle, handle_protocol, loaded_image_of, loaded_image_layout,
}
use uki_stub.Services.Files.{File, FileProtocol, FileSystem, SimpleFileSystem, fs_open, root}
use uki_stub.Services.Files
use uki_stub.Services.Safety.{IsOpen, IsMounted, fs_open-root}
use uki_stub.Services.Contracts.{read_contract}

abbrev protocol : FileProtocol
protocol = record {
  revision = 0x10000;
  open_fn = 0;
  close_fn = 0;
  delete_fn = 0;
  read_fn = 0;
  write_fn = 0;
  get_position_fn = 0;
  set_position_fn = 0;
  get_info_fn = 0;
  set_info_fn = 0;
  flush_fn = 0;
}

-- Memory that starts with the 64-bit number 0x10000, which is a known revision.
abbrev memory : List ℕ
memory = 0 ∷ 0 ∷ 1 ∷ 0 ∷ 0 ∷ 0 ∷ 0 ∷ 0 ∷ replicate 80 0

-- Firmware that answers each call with a status and a number for its first variable, and has the
-- same memory at every address.
abbrev answering : ℕ → ℕ → Firmware ℕ
answering status number = record {
  call = λ q calls. (record { status = status; refs = number ∷ []; bufs = [] }, suc calls);
  region = λ addr size count calls. ok memory;
  load = λ addr size calls. replicate size 0;
  store = λ addr bs calls. calls;
}

abbrev file : List ℕ → File
file name = record { file = protocol; addr = 4096; name = name }

abbrev name : List ℕ
name = 0x5c ∷ 0x41 ∷ []

read_two :
    Files.read (answering 0 2) (file name) (7 ∷ 8 ∷ 9 ∷ []) 0 ≡ (ok (2, 7 ∷ 8 ∷ 9 ∷ [], none), 1)
unfolding Files.read parse_status
read_two = refl

abbrev three : List ℕ
three = 7 ∷ 8 ∷ 9 ∷ []

-- Firmware that fills two of the three bytes.
read_contract_example :
    (n : ℕ) × (b' : List ℕ) × (e : Option Failure) × (calls : ℕ) × (Files.read
        (answering 0 2)
        (file name)
        three
        0
      ≡ (ok (n, b', e), calls))
    × (n ≤ length three)
    × ((1 ≤ n) ⊎ ((e ≢ none) ⊎ (length three ≡ 0)))
read_contract_example = read_contract (answering 0 2) (file name) three 0 (omega arith)

-- Firmware that has the loaded image in its memory before the second call, and protocols later.
abbrev mounting : Firmware ℕ
mounting = record {
  call = λ q calls. (record { status = 0; refs = 4096 ∷ []; bufs = [] }, suc calls);
  region = λ addr size count calls.
      ok (if calls == 1 then 0 ∷ 16 ∷ replicate 110 0 else 0 ∷ 0 ∷ 1 ∷ replicate 109 0);
  load = λ addr size calls. replicate size 0;
  store = λ addr bs calls. calls;
}

abbrev boot : BootServices
boot = record { base = 8192; image_handle = 1 }

abbrev mounted : FileSystem
mounted = record {
  image = some (loaded_image_of (fields loaded_image_layout (0 ∷ 16 ∷ replicate 110 0)));
  device = 4096;
  addr = 4096;
  fs = record { revision = 0x10000; open_volume_fn = 0 };
  volume = some (file []);
}

root-mounted : root mounting boot 0 ≡ (ok mounted, 4)
unfolding root load_image_handle handle_protocol parse_status decode Files.mount Files.open_root
    Files.open_root_volume Files.open_volume Files.read_protocol
root-mounted = refl

open_name : fs_open mounting mounted name 4 ≡ (ok (file name), 5)
unfolding fs_open parse_status Files.protocol_open Files.read_protocol
open_name = refl

fs_open-root_example :
    IsMounted mounting mounted × IsOpen mounting (file name) × ((file name).name ≡ name)
fs_open-root_example =
    fs_open-root mounting boot name 0 4 4 5 mounted (file name) root-mounted open_name
