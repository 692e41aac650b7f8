-- ===== src/Uefi/Debug.antt =====
-- DebugPrint of pkg/uefi/util.go.
use uki_stub.Common.{ℕ, List, [], ◌∷◌, ◌++◌, ltb, if◌then◌else◌, length, drop}
use uki_stub.Firmware.{Firmware, M, buffer, crash, return, ◌>>=◌}
use uki_stub.Guid.{hex_pad}
use uki_stub.Utf16.{unit_bytes}
use uki_stub.Uefi.{field}
use uki_stub.Uefi.TextOutput.{output_string}

-- The units that are written: the text, a colon, the 16 digits of the number, and the end of the line.
unfoldable pub debug_line : List ℕ → ℕ → List ℕ
debug_line text val = text ++ 0x3a ∷ (hex_pad 16 val ++ 0x0d ∷ 0x0a ∷ 0 ∷ [])

-- printBuf is handed in and back: units behind the line stay as they were. An index beyond its 256
-- units panics.
unfoldable pub debug_print : {W : Type 0} → Firmware W → ℕ → List ℕ → ℕ → List ℕ → M W (List ℕ)
debug_print fw st text val print_buf =
    let line = debug_line text val in
    if ltb (length print_buf) (length line) then crash else do
      let print_buf = line ++ drop (length line) print_buf
      con_out ← field fw st 64
      _ ← output_string fw con_out (buffer (unit_bytes print_buf))
      return print_buf
