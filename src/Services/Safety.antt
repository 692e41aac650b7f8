-- ===== src/Services/Safety.antt =====
-- What the handles that the file services hand out are good for.
use uki_stub.Common.{
  ℕ, ◌≡◌, ◌≢◌, inl, inr, true, Option, none, some, List, [], ◌∷◌, arith, Option-cases, ok,
}
use uki_stub.Firmware.{
  Firmware, Request, value, buffer, reference, held, >>=-eq-ok, left_in, decode,
}
use uki_stub.Utf16.{to_utf16}
use uki_stub.Guid.{bytes}
use uki_stub.Services.Boot.{
  service, simple_file_system_protocol_guid, loaded_image_device_path_protocol_guid, BootServices,
  LoadedImage, ImageHandle, load_image_handle,
}
use uki_stub.Services.Files.{
  FileProtocol, File, FileSystem, SimpleFileSystem, is_file_revision, read_protocol, protocol_open,
  fs_open, open_volume, open_root_volume, simple_file_system_of, open_root, mount, root,
}

module _ {W : Type 0} (fw : Firmware W) where
  -- What decode reads is not at address 0.
  decode_ok :
      (layout : List ℕ) (addr : ℕ) (w w' : W) (vs : List ℕ)
      → decode fw layout addr w ≡ (ok vs, w')
      → addr ≢ 0
  unfolding decode
  decode_ok layout addr w w' vs e = ground arith

  read_protocol_ok :
      (addr : ℕ) (w w' : W) (p : FileProtocol × ℕ)
      → read_protocol fw addr w ≡ (ok p, w')
      → (p.1 ≢ 0) × (is_file_revision p.0.revision ≡ true)
  unfolding read_protocol
  read_protocol_ok addr w w' p e = ground arith

  protocol_open_ok :
      (f : FileProtocol) (handle mode : ℕ) (name : List ℕ) (w w' : W) (p : FileProtocol × ℕ)
      → protocol_open fw f handle name mode w ≡ (ok p, w')
      → (p.1 ≢ 0) × (is_file_revision p.0.revision ≡ true)
  unfolding protocol_open
  protocol_open_ok f handle mode name w w' p e =
      let request : Request = record {
        fn = held f.open_fn;
        args = value handle ∷ reference 0 ∷ buffer (to_utf16 name) ∷ value mode ∷ value 0 ∷ [];
      } in
      let r = fw.call request w in ground (arith, read_protocol_ok (left_in r.0 0 0) r.1 w' p)

  open_volume_ok :
      (fs : SimpleFileSystem) (handle : ℕ) (w w' : W) (p : FileProtocol × ℕ)
      → open_volume fw fs handle w ≡ (ok p, w')
      → (p.1 ≢ 0) × (is_file_revision p.0.revision ≡ true)
  unfolding open_volume
  open_volume_ok fs handle w w' p e =
      let request : Request = record {
        fn = held fs.open_volume_fn;
        args = value handle ∷ reference 0 ∷ [];
      } in
      let r = fw.call request w in ground (arith, read_protocol_ok (left_in r.0 0 0) r.1 w' p)

  -- An open file: its methods get past their test of the address.
  abbrev pub IsOpen : File → Type 0
  IsOpen f = (f.addr ≢ 0) × (is_file_revision f.file.revision ≡ true)

  fs_open-some :
      (fs : FileSystem) (v : File) (name : List ℕ) (w w' : W) (f : File)
      → fs.volume ≡ some v
      → fs_open fw fs name w ≡ (ok f, w')
      → IsOpen f × (f.name ≡ name)
  unfolding fs_open
  fs_open-some fs v name w w' f e o =
      ground (arith, protocol_open_ok v.file v.addr 1 name w w' (f.file, f.addr))

  fs_open-none :
      (fs : FileSystem) (name : List ℕ) (w w' : W) (f : File)
      → fs.volume ≡ none
      → fs_open fw fs name w ≢ (ok f, w')
  unfolding fs_open
  fs_open-none fs name w w' f e = ground arith

  fs_open-IsOpen :
      (fs : FileSystem) (name : List ℕ) (w w' : W) (f : File)
      → fs_open fw fs name w ≡ (ok f, w')
      → IsOpen f × (f.name ≡ name)
  fs_open-IsOpen fs name w w' f e = elim (Option-cases fs.volume) [
    | inl v ↦ absurd (fs_open-none fs name w w' f v e)
    | inr (v, has) ↦ fs_open-some fs v name w w' f has e
  ]

  -- What makes a file system usable for Open.
  abbrev pub IsMounted : FileSystem → Type 0
  IsMounted fs =
      (v : File) × (fs.volume ≡ some v) × (v.addr ≢ 0) × (is_file_revision v.file.revision ≡ true)

  open_root_volume_ok :
      (image : Option LoadedImage) (device addr : ℕ) (sfs : SimpleFileSystem) (w w' : W)
      (fs : FileSystem)
      → open_root_volume fw image device addr sfs w ≡ (ok fs, w')
      → IsMounted fs
  unfolding open_root_volume
  open_root_volume_ok image device addr sfs w w' fs e = elim (Option-cases fs.volume) [
    | inl none' ↦ absurd (ground arith)
    | inr (v, has) ↦ (
      v,
      has,
      ground (arith, open_volume_ok sfs addr w w' (v.file, v.addr)),
      ground (arith, open_volume_ok sfs addr w w' (v.file, v.addr)),
    )
  ]

  open_root_ok :
      (image : Option LoadedImage) (device addr : ℕ) (w w' : W) (fs : FileSystem)
      → open_root fw image device addr w ≡ (ok fs, w')
      → IsMounted fs
  unfolding open_root
  open_root_ok image device addr w w' fs e =
      let (vs, w1, _, opened) =
        >>=-eq-ok (decode fw (8 ∷ 8 ∷ []) addr)
          (λ vs. open_root_volume fw image device addr (simple_file_system_of vs)) w e in
      open_root_volume_ok image device addr (simple_file_system_of vs) w1 w' fs opened

  abbrev request : BootServices → ℕ → List ℕ → Request
  request s handle guid = record {
    fn = service s 0x98;
    args = value handle ∷ buffer (bytes guid) ∷ reference 0 ∷ [];
  }

  mount_ok :
      (s : BootServices) (h : ImageHandle) (w w' : W) (fs : FileSystem)
      → mount fw s h w ≡ (ok fs, w')
      → (image : Option LoadedImage) × (device : ℕ) × (addr : ℕ) × (w1 : W) × (open_root fw image
            device addr w1
          ≡ (ok fs, w'))
  unfolding mount
  mount_ok s h w w' fs e =
      let handle : ℕ = elim (h.image) [ none ↦ 0 | some i ↦ i.device_handle ] in
      let r1 = fw.call (request s handle loaded_image_device_path_protocol_guid) w in
      let r2 = fw.call (request s handle simple_file_system_protocol_guid) r1.1 in
      (h.image, left_in r1.0 0 0, left_in r2.0 0 0, r2.1, ground arith)

  root-IsMounted :
      (s : BootServices) (w w' : W) (fs : FileSystem) → root fw s w ≡ (ok fs, w') → IsMounted fs
  unfolding root
  root-IsMounted s w w' fs e =
      let (h, w1, _, mounted) =
        >>=-eq-ok (load_image_handle fw s s.image_handle) (mount fw s) w e in
      let (image, device, addr, w2, opened) = mount_ok s h w1 w' fs mounted in
      open_root_ok image device addr w2 w' fs opened

  -- If Root hands out a file system and Open, at any later time, a file of it, the file system has an
  -- open volume, the file is open, both with a known protocol revision, and the file has the name
  -- asked for.
  pub fs_open-root :
      (s : BootServices) (name : List ℕ) (w w1 later w' : W) (fs : FileSystem) (f : File)
      → root fw s w ≡ (ok fs, w1)
      → fs_open fw fs name later ≡ (ok f, w')
      → IsMounted fs × IsOpen f × (f.name ≡ name)
  fs_open-root s name w w1 later w' fs f mounted opened =
      let (open', named) = fs_open-IsOpen fs name later w' f opened in
      (root-IsMounted s w w1 fs mounted, open', named)
