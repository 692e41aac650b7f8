-- ===== src/Tests/Handles.antt =====
-- The enumerations on a small database of handles.
use mathlib.Core.List.{filter_map}
use uki_stub.Common.{
  ℕ, ◌+◌, ◌*◌, ◌≡◌, refl, none, some, List, [], ◌∷◌, ◌&&◌, arith, ◌==◌, ◌≤◌, ◌^◌, Bool, true, false,
  length, if◌then◌else◌, get_or, take, ok,
}
use uki_stub.Firmware.{Firmware, Reply, Arg, value, reference, buffer}
use uki_stub.Status.{efi_success}
use uki_stub.Status.ErrorMap.{no_errors}
use uki_stub.Uefi.Enumerate.{
  handles_of, enumerate_disks, enumerate_file_systems, enumerate_snp, enumerate_serial_ports,
  efi_not_found, failed,
}
use uki_stub.Uefi.{efi_guid}
use uki_stub.Uefi.Tables.{boot_services}
use uki_stub.Uefi.ProtocolServices.{handle_protocol, locate_handle_buffer, connect_controller}
use uki_stub.Uefi.Database.{Database, answer, located, Answers}
use uki_stub.Uefi.Handles.{found, enumerate_refines}

abbrev handles : List ℕ
handles = 1 ∷ 2 ∷ []

-- Two handles with an interface for every protocol, but for the block protocol of the second, and
-- none listed for the serial protocol.
abbrev db : Database
db = record {
  interface = λ guid h.
      if h == 2 && get_or guid 0 0 == 0x21 then none else some (256 * h + get_or guid 0 0);
  holders = λ guid. if get_or guid 0 0 == 0x6f then [] else handles;
}

abbrev reply : List Arg → Reply
reply (value h ∷ buffer guid ∷ reference _ ∷ []) = answer (db.interface guid h)
reply (value k ∷ buffer guid ∷ value _ ∷ reference _ ∷ reference _ ∷ []) =
    located (db.holders guid) 4096
reply _ = record { status = efi_success; refs = []; bufs = [] }

-- The two handles, 8 bytes each, stand wherever the memory is read.
abbrev listing : Firmware ℕ
listing = record {
  call = λ q w. (reply q.args, w);
  region = λ addr size count w.
      ok (take count (1 ∷ 0 ∷ 0 ∷ 0 ∷ 0 ∷ 0 ∷ 0 ∷ 0 ∷ 2 ∷ 0 ∷ 0 ∷ 0 ∷ 0 ∷ 0 ∷ 0 ∷ 0 ∷ []));
  load =
      λ addr size w. take size (1 ∷ 0 ∷ 0 ∷ 0 ∷ 0 ∷ 0 ∷ 0 ∷ 0 ∷ 2 ∷ 0 ∷ 0 ∷ 0 ∷ 0 ∷ 0 ∷ 0 ∷ 0 ∷ []);
  store = λ addr bytes w. w;
}

listed_fits : (b : Bool) → 4096 + 8 * length (if b then [] else handles) ≤ 2 ^ 64
listed_fits true = omega arith
listed_fits false = omega arith

listed_holds :
    (b : Bool)
    → handles_of
        (length (if b then [] else handles))
        (listing.load 4096 (8 * length (if b then [] else handles)) 0)
      ≡ (if b then [] else handles)
unfolding handles_of
listed_holds true = refl
listed_holds false = refl

answers : Answers listing 4096 7 db 0
unfolding boot_services handle_protocol connect_controller locate_handle_buffer handles_of
answers = record {
  boot = 1;
  has_boot = refl;
  looks_up = λ h guid. refl;
  connected = record { status = efi_success; refs = []; bufs = [] };
  connects = λ h. refl;
  table = λ guid. 4096;
  lists = λ guid. refl;
  placed = λ guid. (omega arith, listed_fits (get_or guid 0 0 == 0x6f));
  holds = λ guid. listed_holds (get_or guid 0 0 == 0x6f);
}

enumerate_refines_example :
    (enumerate_disks listing 4096 7 no_errors 0
      ≡ found listing 4096 7 db 0 answers ((369, 289) ∷ []) no_errors)
    × (enumerate_file_systems listing 4096 7 no_errors 0
        ≡ found listing 4096 7 db 0 answers (290 ∷ 546 ∷ []) no_errors)
    × (enumerate_snp listing 4096 7 no_errors 0
        ≡ found listing 4096 7 db 0 answers (472 ∷ 728 ∷ []) no_errors)
    × (enumerate_serial_ports listing 4096 7 no_errors 0 ≡ (ok (failed efi_not_found no_errors), 0))
unfolding filter_map efi_guid
enumerate_refines_example = enumerate_refines listing 4096 7 db 0 answers no_errors
