-- ===== src/Uefi/Database.antt =====
-- The handle database of the firmware, as the lookups of pkg/uefi see it.
use mathlib.Core.List.{filter_map}
use uki_stub.Common.{
  ℕ, ◌+◌, ◌*◌, ◌^◌, ◌≤◌, ◌≡◌, ◌≢◌, refl, true, Option, none, some, List, [], ◌∷◌, arith, ◌==◌,
  if◌then◌else◌, length, ok, ◌⊎◌, inl,
}
use uki_stub.Firmware.{Firmware, M, Reply, value, reference, buffer, left_in}
use uki_stub.Status.{efi_success}
use uki_stub.Status.ErrorMap.{error_status}
use uki_stub.Uefi.ProtocolServices.{handle_protocol, locate_handle_buffer, connect_controller}
use uki_stub.Uefi.Tables.{boot_services, probe}
use uki_stub.Uefi.Enumerate.{
  collect, handles_of, slice_handles, locate_handles, disk_of, file_system_of, network_of, ports_of,
  disk_io_guid, block_io_guid, simple_file_system_guid, serial_io_guid, dhcp4_service_binding_guid,
  by_protocol, efi_not_found,
}

-- The abstract database: the interface that a handle has for a protocol, and the handles that the
-- firmware lists for it.
pub record Database : Type 0 where
  pub interface : List ℕ → ℕ → Option ℕ
  pub holders : List ℕ → List ℕ

-- EFI_UNSUPPORTED
abbrev pub efi_unsupported : ℕ
efi_unsupported = error_status 3

abbrev pub answer : Option ℕ → Reply
answer none = record { status = efi_unsupported; refs = 0 ∷ []; bufs = [] }
answer (some i) = record { status = efi_success; refs = i ∷ []; bufs = [] }

-- The answer of LocateHandleBuffer: EFI_NOT_FOUND if no handle is listed, and else the count and the
-- address of the listed handles.
abbrev pub located : List ℕ → ℕ → Reply
located [] table = record { status = efi_not_found; refs = 0 ∷ 0 ∷ []; bufs = [] }
located (h ∷ hs) table = record {
  status = efi_success;
  refs = length (h ∷ hs) ∷ table ∷ [];
  bufs = [];
}

-- Firmware in a state answers from a database: its calls change nothing, HandleProtocol looks a
-- handle up, and LocateHandleBuffer lists handles.
pub record Answers {W : Type 0} (fw : Firmware W) (st image : ℕ) (db : Database) (w : W)
    : Type 0 where
  pub boot : ℕ
  pub has_boot : boot_services fw st image w ≡ (ok boot, w)
  pub looks_up :
      (h : ℕ) (guid : List ℕ)
      → handle_protocol fw boot h (buffer guid) (reference 0) w
        ≡ (ok (answer (db.interface guid h)), w)
  pub connected : Reply
  pub connects :
      (h : ℕ) → connect_controller fw boot h (value 0) (value 0) true w ≡ (ok connected, w)
  pub table : List ℕ → ℕ
  pub lists :
      (guid : List ℕ)
      → locate_handle_buffer fw boot by_protocol
          (buffer guid)
          (value 0)
          (reference 0)
          (reference 0)
          w
        ≡ (ok (located (db.holders guid) (table guid)), w)
  pub placed :
      (guid : List ℕ) → (table guid ≢ 0) × (table guid + 8 * length (db.holders guid) ≤ 2 ^ 64)
  pub holds :
      (guid : List ℕ)
      → handles_of
          (length (db.holders guid))
          (fw.load (table guid) (8 * length (db.holders guid)) w)
        ≡ db.holders guid

abbrev pub both : {A B : Type 0} → Option A → Option B → Option (A × B)
both none b = none
both (some a) none = none
both (some a) (some b) = some (a, b)

-- All the interfaces, if none is missing.
abbrev pub all_interfaces : (ℕ → Option ℕ) → List ℕ → Option (List ℕ)
all_interfaces f [] = some []
all_interfaces f (h ∷ hs) = elim (f h) [
  | none ↦ none
  | some i ↦ elim (all_interfaces f hs) [ none ↦ none | some is ↦ some (i ∷ is) ]
]

-- The interfaces up to the first that is missing, and how the walk ends.
abbrev pub walk : (ℕ → Option ℕ) → List ℕ → List ℕ × ℕ
walk f [] = ([], efi_success)
walk f (h ∷ hs) =
    let rest = walk f hs in
    elim (f h) [ none ↦ ([], efi_unsupported) | some i ↦ (i ∷ rest.0, rest.1) ]

pub walk-all_interfaces :
    (f : ℕ → Option ℕ) (hs : List ℕ)
    → (if (walk f hs).1 == efi_success then some ((walk f hs).0) else none) ≡ all_interfaces f hs
walk-all_interfaces f [] = refl
walk-all_interfaces f (h ∷ hs) = ground (arith, walk-all_interfaces f hs)

pub walk_status :
    (f : ℕ → Option ℕ) (hs : List ℕ)
    → ((walk f hs).1 ≡ efi_success) ⊎ ((walk f hs).1 ≡ efi_unsupported)
walk_status f [] = inl refl
walk_status f (h ∷ hs) = ground (arith, walk_status f hs)

module _ {W : Type 0} (fw : Firmware W) (st image : ℕ) where
  pub collect-filter_map :
      {A : Type 0} (body : ℕ → M W (Option A)) (f : ℕ → Option A) (w : W)
      → ((h : ℕ) → body h w ≡ (ok (f h), w))
      → (hs : List ℕ) → collect fw st image body hs w ≡ (ok (filter_map f hs), w)
  unfolding collect filter_map
  collect-filter_map body f w each [] = refl
  collect-filter_map body f w each (h ∷ hs) =
      let rest = collect-filter_map body f w each hs in ground (arith, each h, rest)

module _ {W : Type 0} (fw : Firmware W) (st image : ℕ) (db : Database) (w : W)
    (answers : Answers fw st image db w) where
  pub probe-interface :
      (h : ℕ) (guid : List ℕ)
      → probe fw st image h guid w ≡ (
        ok ((answer (db.interface guid h)).status, left_in (answer (db.interface guid h)) 0 0),
        w,
      )
  unfolding probe
  probe-interface h guid = ground (arith, answers.has_boot, answers.looks_up h guid)

  pub disk_of-both :
      (h : ℕ)
      → disk_of fw st image h w
        ≡ (ok (both (db.interface disk_io_guid h) (db.interface block_io_guid h)), w)
  unfolding disk_of
  disk_of-both h = ground (arith, probe-interface h disk_io_guid, probe-interface h block_io_guid)

  pub file_system_of-interface :
      (h : ℕ) → file_system_of fw st image h w ≡ (ok (db.interface simple_file_system_guid h), w)
  unfolding file_system_of
  file_system_of-interface h = ground (arith, probe-interface h simple_file_system_guid)

  pub network_of-interface :
      (h : ℕ) → network_of fw st image h w ≡ (ok (db.interface dhcp4_service_binding_guid h), w)
  unfolding network_of
  network_of-interface h =
      ground
        (arith, answers.has_boot, answers.connects h, probe-interface h dhcp4_service_binding_guid)

  pub ports_of-walk :
      (hs : List ℕ) → ports_of fw st image hs w ≡ (ok (walk (db.interface serial_io_guid) hs), w)
  unfolding ports_of
  ports_of-walk [] = refl
  ports_of-walk (h ∷ hs) = ground (arith, ports_of-walk hs, probe-interface h serial_io_guid)

  pub locate_handles-none :
      (guid : List ℕ)
      → db.holders guid ≡ []
      → locate_handles fw st image guid w ≡ (ok (efi_not_found, 0, 0), w)
  unfolding locate_handles
  locate_handles-none guid e = ground (arith, answers.has_boot, rw e at (answers.lists guid))

  pub locate_handles-holders :
      (guid : List ℕ) (h : ℕ) (hs : List ℕ)
      → db.holders guid ≡ h ∷ hs
      → locate_handles fw st image guid w
        ≡ (ok (efi_success, length (db.holders guid), answers.table guid), w)
  unfolding locate_handles
  locate_handles-holders guid h hs e =
      ground (arith, answers.has_boot, e, rw e at (answers.lists guid))

  pub slice_handles-holders :
      (guid : List ℕ)
      → slice_handles fw st image (answers.table guid) (length (db.holders guid)) w
        ≡ (ok (db.holders guid), w)
  unfolding slice_handles
  slice_handles-holders guid = ground (arith, answers.placed guid, answers.holds guid)
