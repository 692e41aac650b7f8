-- ===== src/Uefi.antt =====
-- pkg/uefi/call.go: the calls of the package uefi. A protocol or a table is a pointer to a struct in
-- memory that holds the addresses of functions; a method reads its field there and calls it.
pub mod RuntimeServices
pub mod BootServices
pub mod ProtocolServices
pub mod TextInput
pub mod TextOutput
pub mod FileProtocol
pub mod SerialIo
pub mod Dhcp
pub mod SimpleNetwork
pub mod BlockIo
pub mod GraphicsOutput
pub mod Tables
pub mod Enumerate
pub mod Reach
pub mod Debug
pub mod DebugLine
pub mod Database
pub mod Handles
pub mod Structs
pub mod Layout
pub mod Guids
use uki_stub.Common.{
  ℕ, ◌+◌, ◌%◌, ◌^◌, Bool, true, false, ◌||◌, List, ◌++◌, [], ◌∷◌, ◌==◌, if◌then◌else◌, length,
}
use uki_stub.Firmware.{
  Firmware, M, Arg, value, Reply, Entry, at, held, call_service, crash, return, observe, ◌>>=◌,
}
use uki_stub.Wire.{marshal, le_value}
use uki_stub.Common.{ok}

-- What UefiCallN calls. Those of three and of five arguments are written in Go and hand the address
-- to callFn, which takes it for that of a slot; the others call the function itself.
abbrev pub uefi_entry : ℕ → ℕ → Entry
uefi_entry n fn = if n == 3 || n == 5 then at fn else held fn

-- convertBoolean and convertBool of util.go.
abbrev pub convert_boolean : Bool → ℕ
convert_boolean true = 1
convert_boolean false = 0

-- The bytes of an EFI_GUID.
unfoldable pub efi_guid : ℕ → ℕ → ℕ → List ℕ → List ℕ
unfolding marshal
efi_guid a b c d = marshal (4 ∷ 2 ∷ 2 ∷ []) (a ∷ b ∷ c ∷ []) ++ d

module _ {W : Type 0} (fw : Firmware W) where
  -- The number of 8 bytes at an address.
  unfoldable pub word : ℕ → W → ℕ
  unfolding le_value
  word addr w = le_value (fw.load addr 8 w)

  -- `p.field` of 8 bytes, for a pointer `p` to a struct.
  unfoldable pub field : ℕ → ℕ → M W ℕ
  unfolding word
  field p offset = if p == 0 then crash else observe (λ w. ok (word ((p + offset) % 2 ^ 64) w))

  -- `UefiCallN(p.method, args)`
  unfoldable pub call_method : ℕ → ℕ → List Arg → M W Reply
  unfolding field call_service
  call_method p offset args = do
    fn ← field p offset
    call_service fw (uefi_entry (length args) fn) args

  -- `UefiCallN(ptrval(&p.method), args)`: the address of the field itself goes to callFn.
  unfoldable pub call_slot : ℕ → ℕ → List Arg → M W Reply
  unfolding call_service
  call_slot p offset args =
      if p == 0
      then crash
      else call_service fw (uefi_entry (length args) ((p + offset) % 2 ^ 64)) args
