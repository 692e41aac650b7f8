-- ===== src/Uefi/Handles.antt =====
-- The enumerations of pkg/uefi against the handle database of the firmware.
use mathlib.Core.List.{filter_map}
use uki_stub.Common.{
  ℕ, ◌≡◌, refl, ◌⊎◌, inl, inr, Option, none, some, List, [], ◌∷◌, arith, Outcome, ok,
}
use uki_stub.Firmware.{Firmware}
use uki_stub.Status.ErrorMap.{ErrMap}
use uki_stub.Uefi.Enumerate.{
  Found, failed, disk_of, file_system_of, network_of, enumerate_disks, enumerate_file_systems,
  enumerate_snp, enumerate_serial_ports, disk_io_guid, block_io_guid, simple_file_system_guid,
  serial_io_guid, dhcp4_service_binding_guid, simple_network_guid, efi_not_found,
}
use uki_stub.Uefi.Database.{
  Database, Answers, efi_unsupported, both, all_interfaces, collect-filter_map, disk_of-both,
  file_system_of-interface, network_of-interface, ports_of-walk, locate_handles-none,
  locate_handles-holders, slice_handles-holders, walk-all_interfaces, walk_status,
}

holders-cases : (hs : List ℕ) → (hs ≡ []) ⊎ ((h : ℕ) × (rest : List ℕ) × (hs ≡ h ∷ rest))
holders-cases [] = inl refl
holders-cases (h ∷ rest) = inr (h, rest, refl)

filter_map-none : {B : Type 0} (f : ℕ → Option B) (hs : List ℕ) → hs ≡ [] → filter_map f hs ≡ []
unfolding filter_map
filter_map-none f [] e = refl
filter_map-none f (h ∷ hs) e = cc

module _ {W : Type 0} (fw : Firmware W) (st image : ℕ) (db : Database) (w : W)
    (answers : Answers fw st image db w) where
  abbrev pub found : {A : Type 0} → List A → ErrMap → Outcome (Found A) × W
  found l errs = (ok ((l, none), errs), w)

  -- What EnumerateSerialPorts finds: the interfaces of all handles, or the error of one that has
  -- none.
  abbrev pub ports_found : Option (List ℕ) → ErrMap → Outcome (Found ℕ) × W
  ports_found (some is) errs = found is errs
  ports_found none errs = (ok (failed efi_unsupported errs), w)

  -- EFI_NOT_FOUND as an error, if no handle is listed.
  abbrev pub unless_none :
      {A : Type 0} → List ℕ → Outcome (Found A) × W → ErrMap → Outcome (Found A) × W
  unless_none [] out errs = (ok (failed efi_not_found errs), w)
  unless_none (h ∷ hs) out errs = out

  abbrev pub disk_interfaces : ℕ → Option (ℕ × ℕ)
  disk_interfaces h = both (db.interface disk_io_guid h) (db.interface block_io_guid h)

  enumerate_disks-both :
      (errs : ErrMap)
      → enumerate_disks fw st image errs w
        ≡ found (filter_map disk_interfaces (db.holders disk_io_guid)) errs
  unfolding enumerate_disks
  enumerate_disks-both errs = elim (holders-cases (db.holders disk_io_guid)) [
    | inl none' ↦ ground (
      arith,
      none',
      locate_handles-none fw st image db w answers disk_io_guid none',
      filter_map-none disk_interfaces (db.holders disk_io_guid) none',
    )
    | inr (h, rest, some') ↦ ground (
      arith,
      some',
      locate_handles-holders fw st image db w answers disk_io_guid h rest some',
      slice_handles-holders fw st image db w answers disk_io_guid,
      collect-filter_map fw st image (disk_of fw st image) disk_interfaces w
          (disk_of-both fw st image db w answers) (db.holders disk_io_guid),
    )
  ]

  enumerate_file_systems-interface :
      (errs : ErrMap)
      → enumerate_file_systems fw st image errs w
        ≡ found
            (filter_map (db.interface simple_file_system_guid) (db.holders simple_file_system_guid))
            errs
  unfolding enumerate_file_systems
  enumerate_file_systems-interface errs =
      elim (holders-cases (db.holders simple_file_system_guid)) [
        | inl none' ↦ ground (
          arith,
          none',
          locate_handles-none fw st image db w answers simple_file_system_guid none',
          filter_map-none (db.interface simple_file_system_guid)
              (db.holders simple_file_system_guid) none',
        )
        | inr (h, rest, some') ↦ ground (
          arith,
          some',
          locate_handles-holders fw st image db w answers simple_file_system_guid h rest some',
          slice_handles-holders fw st image db w answers simple_file_system_guid,
          collect-filter_map fw st image (file_system_of fw st image)
              (db.interface simple_file_system_guid) w
              (file_system_of-interface fw st image db w answers)
              (db.holders simple_file_system_guid),
        )
      ]

  enumerate_snp-interface :
      (errs : ErrMap)
      → enumerate_snp fw st image errs w
        ≡ unless_none
            (db.holders simple_network_guid)
            (found
              (filter_map
                (db.interface dhcp4_service_binding_guid)
                (db.holders simple_network_guid))
              errs)
            errs
  unfolding enumerate_snp
  enumerate_snp-interface errs = elim (holders-cases (db.holders simple_network_guid)) [
    | inl none' ↦
        ground
          (arith, none', locate_handles-none fw st image db w answers simple_network_guid none')
    | inr (h, rest, some') ↦ ground (
      arith,
      some',
      locate_handles-holders fw st image db w answers simple_network_guid h rest some',
      slice_handles-holders fw st image db w answers simple_network_guid,
      collect-filter_map fw st image (network_of fw st image)
          (db.interface dhcp4_service_binding_guid) w
          (network_of-interface fw st image db w answers) (db.holders simple_network_guid),
    )
  ]

  enumerate_serial_ports-all :
      (errs : ErrMap)
      → enumerate_serial_ports fw st image errs w
        ≡ unless_none
            (db.holders serial_io_guid)
            (ports_found
              (all_interfaces (db.interface serial_io_guid) (db.holders serial_io_guid))
              errs)
            errs
  unfolding enumerate_serial_ports
  enumerate_serial_ports-all errs =
      let f = db.interface serial_io_guid in
      let hs = db.holders serial_io_guid in
      elim (holders-cases (db.holders serial_io_guid)) [
        | inl none' ↦
            ground (arith, none', locate_handles-none fw st image db w answers serial_io_guid none')
        | inr (h, rest, some') ↦ ground (
          arith,
          some',
          locate_handles-holders fw st image db w answers serial_io_guid h rest some',
          slice_handles-holders fw st image db w answers serial_io_guid,
          ports_of-walk fw st image db w answers hs,
          walk-all_interfaces f hs,
          walk_status f hs,
        )
      ]

  -- If the firmware answers from a database of handles, and by EFI_NOT_FOUND for a protocol that no
  -- handle is listed for, then EnumerateDisks finds both interfaces of each listed handle that has
  -- both, and EnumerateFileSystems the interface of each listed handle that has one, in order, and
  -- none without an error if no handle is listed; EnumerateSNP finds the DHCP binding, in place of
  -- the network interface, of each handle listed for the network protocol; EnumerateSerialPorts
  -- finds the interfaces of all listed handles, or the error of one that has none; these two return
  -- the error of EFI_NOT_FOUND if no handle is listed.
  pub enumerate_refines :
      (errs : ErrMap)
      → (enumerate_disks fw st image errs w
          ≡ found (filter_map disk_interfaces (db.holders disk_io_guid)) errs)
        × (enumerate_file_systems fw st image errs w
            ≡ found
                (filter_map
                  (db.interface simple_file_system_guid)
                  (db.holders simple_file_system_guid))
                errs)
        × (enumerate_snp fw st image errs w
            ≡ unless_none
                (db.holders simple_network_guid)
                (found
                  (filter_map
                    (db.interface dhcp4_service_binding_guid)
                    (db.holders simple_network_guid))
                  errs)
                errs)
        × (enumerate_serial_ports fw st image errs w
            ≡ unless_none
                (db.holders serial_io_guid)
                (ports_found
                  (all_interfaces (db.interface serial_io_guid) (db.holders serial_io_guid))
                  errs)
                errs)
  enumerate_refines errs = (
    enumerate_disks-both errs,
    enumerate_file_systems-interface errs,
    enumerate_snp-interface errs,
    enumerate_serial_ports-all errs,
  )
