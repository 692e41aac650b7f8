-- ===== src/Tests/Devices.antt =====
-- The console, the disk and the graphics modes.
use uki_stub.Common.{
  ℕ, suc, ◌≡◌, refl, true, false, Option, some, List, [], ◌∷◌, arith, replicate, Failure,
  region_error, ok, err, length, ◌⊎◌, ◌≢◌, ◌<◌, ◌^◌, get_or, none,
}
use uki_stub.Firmware.{Firmware}
use uki_stub.Utf8.{runes}
use uki_stub.Utf16.{encode}
use uki_stub.Utf16.RoundTrip.{units}
use uki_stub.Console.{Console, bytes_equal, cub, terminated, text, read}
use uki_stub.Console.Output.{expand, IsText, write_text_unterminated}
use uki_stub.Services.System.{ModeInformation}
use uki_stub.Graphics.{init_loop, init_mode}
use uki_stub.Status.ErrorMap.{err_map}
use uki_stub.Disk.{Media, DiskIo, Disk, protocols, read_at, write_at, disk_call}
use uki_stub.Disk.Transfer.{IsTransfer, disk-IsTransfer, write_at_guard}
use uki_stub.Console.Input.{IsRead, read-IsRead}

abbrev console : Console
console = record { force_line = true; replace_tabs = 2; input = 4096; output = 8192 }

-- A tab, a letter and a line feed.
abbrev line : List ℕ
line = 0x09 ∷ 0x41 ∷ 0x0a ∷ []

runes-line : runes line ≡ line
unfolding runes
runes-line = refl

line_not_cub : bytes_equal cub line ≡ false
unfolding bytes_equal
line_not_cub = refl

write_text_unterminated_example :
    (q : List ℕ) × (terminated (text console line) ≡ some q)
    × (units q ≡ expand console (encode (runes line)))
    × IsText (units q)
write_text_unterminated_example =
    write_text_unterminated console line line_not_cub (rw runes-line (omega arith))
      (rw runes-line (omega arith))

-- The byte at the end is 0 already, and Output adds none.
abbrev sent : List ℕ
sent = 0x20 ∷ 0 ∷ 0x20 ∷ 0 ∷ 0x41 ∷ 0 ∷ 0x0a ∷ 0 ∷ 0x0d ∷ 0 ∷ []

terminated-line : terminated (text console line) ≡ some sent
unfolding terminated text encode runes
terminated-line = refl

-- A key at each call.
abbrev keys : Firmware ℕ
keys = record {
  call =
      λ q calls. (record { status = 0; refs = []; bufs = (0 ∷ 0 ∷ 0x41 ∷ 0 ∷ []) ∷ [] }, suc calls);
  region = λ addr size count calls. err region_error;
  load = λ addr size calls. replicate size 0;
  store = λ addr bs calls. calls;
}

read-IsRead_example :
    (n : ℕ) × (q : List ℕ) × (e : Option Failure) × (w' : ℕ) × (read keys console (replicate 4 0) 0
      ≡ (ok (n, q, e), w'))
    × IsRead (replicate 4 0) n q
read-IsRead_example = read-IsRead keys console 2 (replicate 4 0) 0 refl

abbrev medium : Media
medium = record {
  media_id = 3;
  removable_media = false;
  media_present = true;
  logical_partition = false;
  read_only = false;
  write_caching = false;
  block_size = 512;
  io_align = 0;
  last_block = 99;
}

abbrev disk_io : DiskIo
disk_io = record { addr = 4096; revision = 1; read_disk = 8192; write_disk = 8200 }

abbrev disk : Option Disk
disk = some (record {
  disk_io = some disk_io;
  block_io = some (record {
    addr = 4160;
    revision = 1;
    media = some medium;
    reset = 0;
    read_blocks = 0;
    write_blocks = 0;
    flush_blocks = 0;
  });
})

disk-IsTransfer_example :
    IsTransfer
      (length line)
      (read_at keys disk line 512 0 err_map).0.0
      (read_at keys disk line 512 0 err_map).0.1
    × IsTransfer
        (length line)
        (write_at keys disk line 512 0 err_map).0.0
        (write_at keys disk line 512 0 err_map).0.1
disk-IsTransfer_example = disk-IsTransfer keys disk line 512 0 err_map

write_at_guard_example :
    ((write_at keys disk line 512 0 err_map).1 ≡ 0)
    ⊎ ((io : DiskIo) × (m : Media) × (protocols disk ≡ some (io, m))
        × (m.read_only ≡ false)
        × (512 < 2 ^ 63)
        × (length line ≢ 0)
        × ((write_at keys disk line 512 0 err_map).1
            ≡ (disk_call keys io.write_disk io m line 512 0).1))
write_at_guard_example = write_at_guard keys disk line 512 0 err_map

abbrev resolution : ℕ → ℕ → ModeInformation
resolution h v = record {
  version = 0;
  horizontal_resolution = h;
  vertical_resolution = v;
  pixel_format = 0;
  red_mask = 0;
  green_mask = 0;
  blue_mask = 0;
  reserved_mask = 0;
  pixels_per_scan_line = h;
}

-- Three modes, the second of which is not answered for; the state is the mode that was set.
abbrev modes : ℕ → ℕ → Option ModeInformation × ℕ
modes i w = (get_or (some (resolution 640 480) ∷ none ∷ some (resolution 800 600) ∷ []) i none, w)

abbrev set_current : ℕ → ℕ → ℕ
set_current i w = i

init_mode_two : init_mode modes set_current 3 9 ≡ (resolution 800 600, 2)
unfolding init_mode init_loop
init_mode_two = refl
