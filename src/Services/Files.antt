-- ===== src/Services/Files.antt =====
-- pkg/ueficore/file.go and fs.go: the EFI file protocol, the file handle, and the file system of
-- the volume that the image was loaded from.
mod Layout
use uki_stub.Common.{
  ℕ, ◌+◌, ◌*◌, ◌||◌, Option, none, some, List, [], ◌∷◌, ◌==◌, if◌then◌else◌, length, get_or,
  Failure, invalid_file_instance, invalid_file_system, invalid_revision, eof, slice,
}
use Prim.Native.Nat.{bit_and}
use uki_stub.Status.{parse_status, efi_device_error}
use uki_stub.Firmware.{
  Firmware, M, value, reference, buffer, held, call_service, call_status, decode, observe, check,
  return, fail, lift, left_in, ◌>>=◌, zeros,
}
use uki_stub.Guid.{codes, bytes}
use uki_stub.Utf16.{to_utf16}
use uki_stub.Wire.{unmarshal}
use uki_stub.DevicePath
use uki_stub.Services.Boot.{
  BootServices, LoadedImage, ImageHandle, handle_protocol, load_image_handle, load_image_call,
  loaded_image_device_path_protocol_guid, simple_file_system_protocol_guid,
}
pub use uki_stub.Services.Files.Layout.{
  efi_file_info_id, efi_file_mode_read, efi_file_directory, FileProtocol, file_protocol_layout,
  file_protocol_of, is_file_revision, efi_time_layout, EfiTime, efi_time_of, file_info_layout,
  InfoStruct, info_of, File, FileInfo, FileMode, SimpleFileSystem, simple_file_system_of,
  FileSystem,
}
unfoldable pub use uki_stub.Services.Files.Layout.{file_info_size, is_dir, mode, mod_time}

module _ {W : Type 0} (fw : Firmware W) where
  -- The protocol at an address that the firmware handed out, if its revision is known.
  unfoldable pub read_protocol : ℕ → M W (FileProtocol × ℕ)
  unfolding decode
  read_protocol addr = do
    vs ← decode fw file_protocol_layout addr
    if is_file_revision (get_or vs 0 0)
        then return (file_protocol_of vs, addr)
        else fail invalid_revision

  unfoldable pub protocol_open : FileProtocol → ℕ → List ℕ → ℕ → M W (FileProtocol × ℕ)
  unfolding call_service
  protocol_open f handle name mode = do
    r ←
        call_service fw (held f.open_fn)
          (value handle ∷ reference 0 ∷ buffer (to_utf16 name) ∷ value mode ∷ value 0 ∷ [])
    addr ← check (left_in r 0 0) (parse_status r.status)
    read_protocol addr

  unfoldable pub protocol_close : FileProtocol → ℕ → M W (Option Failure)
  unfolding call_status
  protocol_close f handle = call_status fw (held f.close_fn) (value handle ∷ [])

  -- The number of bytes, the buffer after the call, and the error.
  unfoldable pub protocol_read : FileProtocol → ℕ → List ℕ → M W (ℕ × List ℕ × Option Failure)
  unfolding call_service
  protocol_read f handle buf =
      let size = length buf in
      if size == 0 then return (0, buf, none) else do
        r ← call_service fw (held f.read_fn) (value handle ∷ reference size ∷ buffer buf ∷ [])
        let count = left_in r 0 size
        let buf' = get_or r.bufs 0 buf
        if r.status == efi_device_error || count == 0
            then return (0, buf', some eof)
            else return (count, buf', parse_status r.status)

  abbrev pub info_size : ℕ
  info_size = 8 * 7 + 512

  -- `buf[0:size]` panics for a size above that of the buffer.
  unfoldable pub get_info : FileProtocol → ℕ → List ℕ → M W InfoStruct
  unfolding call_service unmarshal
  get_info f handle guid = do
    r ←
        call_service fw (held f.get_info_fn)
          (value handle ∷ buffer guid ∷ reference info_size ∷ buffer (zeros info_size) ∷ [])
    size ← check (left_in r 0 info_size) (parse_status r.status)
    bytes ← lift (slice (get_or r.bufs 0 (zeros info_size)) 0 size)
    vs ← lift (unmarshal file_info_layout bytes)
    return (info_of vs)

  unfoldable pub stat : File → M W FileInfo
  unfolding get_info
  stat f = if f.addr == 0 then fail invalid_file_instance else do
    info ← get_info f.file f.addr (bytes efi_file_info_id)
    return (record { info = info; addr = f.addr; name = f.name })

  unfoldable pub read : File → List ℕ → M W (ℕ × List ℕ × Option Failure)
  unfolding protocol_read
  read f b =
      if f.addr == 0
      then return (0, b, some invalid_file_instance)
      else protocol_read f.file f.addr b

  -- The handle itself is not changed.
  unfoldable pub close : File → M W (Option Failure)
  unfolding protocol_close
  close f =
      if f.addr == 0 then return (some invalid_file_instance) else protocol_close f.file f.addr

  unfoldable pub open_volume : SimpleFileSystem → ℕ → M W (FileProtocol × ℕ)
  unfolding call_service
  open_volume root handle = do
    r ← call_service fw (held root.open_volume_fn) (value handle ∷ reference 0 ∷ [])
    addr ← check (left_in r 0 0) (parse_status r.status)
    read_protocol addr

  -- FS.Open
  unfoldable pub fs_open : FileSystem → List ℕ → M W File
  fs_open root name = elim (root.volume) [
    | none ↦ fail invalid_file_system
    | some v ↦ if v.addr == 0 then fail invalid_file_system else do
      (file, addr) ← protocol_open v.file v.addr name efi_file_mode_read
      return (record { file = file; addr = addr; name = name })
  ]

  -- The end of Services.Root: the volume of the simple file system at an address.
  unfoldable pub open_root_volume : Option LoadedImage → ℕ → ℕ → SimpleFileSystem → M W FileSystem
  open_root_volume image device addr sfs =
      if sfs.revision == 0x10000
      then (do
        (file, volume) ← open_volume sfs addr
        return (record {
          image = image;
          device = device;
          addr = addr;
          fs = sfs;
          volume = some (record { file = file; addr = volume; name = [] });
        }))
      else fail invalid_revision

  unfoldable pub open_root : Option LoadedImage → ℕ → ℕ → M W FileSystem
  open_root image device addr = do
    vs ← decode fw (8 ∷ 8 ∷ []) addr
    open_root_volume image device addr (simple_file_system_of vs)

  -- Services.Root behind LoadImageHandle: the device path and the file system of the device that
  -- the image was loaded from.
  unfoldable pub mount : BootServices → ImageHandle → M W FileSystem
  unfolding handle_protocol
  mount s h = do
    image ← check h.image h.error
    let device_handle : ℕ = elim image [ none ↦ 0 | some i ↦ i.device_handle ]
    (device, e1) ← handle_protocol fw s device_handle loaded_image_device_path_protocol_guid
    device ← check device e1
    (addr, e2) ← handle_protocol fw s device_handle simple_file_system_protocol_guid
    addr ← check addr e2
    open_root image device addr

  -- Services.Root, up to the first error.
  unfoldable pub root : BootServices → M W FileSystem
  root s = do h ← load_image_handle fw s s.image_handle; mount s h

  -- FS.FilePath: the device path is read in firmware memory.
  unfoldable pub fs_file_path : FileSystem → List ℕ → M W (List ℕ)
  fs_file_path root name = do
    r ← observe (λ w.
        DevicePath.file_path (fw.region root.device DevicePath.buffer_size DevicePath.buffer_size w)
          name)
    return (r.2)

  -- BootServices.LoadImageMem
  unfoldable pub load_image_mem :
      BootServices → ℕ → FileSystem → List ℕ → List ℕ → M W (ℕ × Option Failure)
  unfolding fs_file_path load_image_call
  load_image_mem s boot root name buf = do
    device_path ← fs_file_path root name
    load_image_call fw s boot device_path buf
