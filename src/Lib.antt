-- ===== src/Lib.antt =====
-- The Go code of the UKI boot stub: the library goefi/pkg/ueficore, which talks to UEFI firmware
-- from a Go unikernel, the library goefi/pkg/uefi, which calls the firmware through the structs
-- of its tables and protocols, and the commands under goefi/cmd, which load a kernel and start
-- it.
--
-- The program gets an image handle and the address of the EFI system table from the firmware.
-- Services.Init decodes the table and sets up the console, the boot services and the runtime
-- services. All of these call the firmware through CallService with a table slot and 64-bit
-- arguments, many of them addresses of Go variables and buffers that the firmware fills. Structs
-- in firmware memory are read through a region of the package tamago/dma and decoded from
-- little-endian bytes. On top stand the memory map and its E820 form, device paths, the file
-- system of the volume that the image was loaded from, and the loading and starting of further
-- images. The commands use these: they read a configuration or a file, hand the kernel to
-- LoadImageMem, write the command line into the options of the loaded image and start it.
--
-- - Common, with Common.Tests, Common.Lists and Common.Results: Boolean tests on numbers, lists
--   and their lemmas, and the outcomes of Go code. `ok` is a return with a nil error, `err` a
--   return with an error, `panic` a run-time panic.
-- - Wire, with Wire.RoundTrip and Wire.Splice: marshalBinary and unmarshalBinary of
--   goefi/pkg/ueficore/desc.go. A struct type is the list of its field widths, a struct the list
--   of its field values.
-- - Status and Status.ErrorMap: goefi/pkg/ueficore/error.go and goefi/pkg/uefi/efistatus.go. An
--   `*Error` is told from others by the address of its object, as errors.Is does.
-- - Utf8 and Utf16: the conversions between strings, runes and UTF-16 that the code uses: toUTF16
--   of desc.go, and goefi/pkg/uefi/util.go. A string is the list of its runes, or of its bytes
--   where the code gets bytes.
-- - DevicePath: goefi/pkg/ueficore/path.go. The loop of devicePath is `scan`, with the loop's own
--   bound of 16 rounds.
-- - MemoryMap: goefi/pkg/ueficore/mem.go. The loop of GetMemoryMap is `decode_map`, on fuel: each
--   round takes 48 bytes of a buffer of 1000 times 48 bytes or ends the loop, so 1001 rounds are
--   enough.
-- - Guid: goefi/pkg/ueficore/guid.go and RegistryFormat of config.go.
-- - Clock and Clock.Ticks: goefi/pkg/uefi/clock.go, for the counter that the processor reports.
--   The two global variables that TicksFrequency and DebugPrint change are handed in and back.
--   Clock.Shared is the goroutines that call TicksFrequency. Clock.Epoch, Clock.Cached and
--   Clock.Shared hold the theorems.
-- - Firmware: CallService of goefi/pkg/ueficore/uefi.go with encode and decode of desc.go. The
--   firmware is a record of functions over a state `W`: a call takes its entry and arguments and
--   gives the status and what it left in the variables and buffers; `region` is what tamago/dma
--   gives for an address, `load` and `store` read and write through an unsafe.Pointer.
--   Firmware.Memory holds the theorem on encode and decode. Firmware.Lock is CallService,
--   callService with the stubs UefiCallN of goefi/pkg/uefi/call.go, and TicksFrequency, as a step
--   relation: goroutines take the mutex of their function or none, call, and release it, in any
--   order. Firmware.Exclusion, Firmware.Overlap and Firmware.Sequential hold the theorems on it.
-- - Console: goefi/pkg/ueficore/console.go and printk of goefi/pkg/ueficore/x64/console.go.
-- - Uefi: goefi/pkg/uefi/call.go. A method of a protocol or a table reads the address of its
--   function in memory and calls it. Its children RuntimeServices, BootServices,
--   ProtocolServices, TextInput, TextOutput, FileProtocol, SerialIo, Dhcp, SimpleNetwork, BlockIo
--   and GraphicsOutput are the methods of uefi_spec.go and of the files of the protocols, one
--   function for each, named after it, with the offset of its field in the struct. Uefi.Tables is
--   what util.go, loaded_image.go, runtime.go, simple_text_in.go and graphics_output_protocol.go
--   look up and wait for, Uefi.Enumerate the enumerations of handles. WaitForEvent is on a number
--   of rounds. Uefi.Debug is DebugPrint of util.go, with the theorem in Uefi.DebugLine.
--   Uefi.Structs is the layout in memory of the structs that these files declare, Uefi.Guids the
--   GUIDs of the configuration tables. Uefi.Reach, Uefi.Handles and Uefi.Layout hold the
--   theorems; Uefi.Database is the database of handles that Uefi.Handles takes the firmware for.
-- - Serial: SerialPort of goefi/pkg/uefi/serial_io_protocol.go. The loop of Read is
--   `read_rounds`, on a number of rounds; a port that never answers keeps it going.
--   Serial.Reading holds the theorem.
-- - Cpu and Cpu.Frequency: goefi/pkg/uefi/device/x86/cpu.go.
-- - Disk: Disk of goefi/pkg/uefi/media_io_protocol.go.
-- - Kernel: what the commands goefi/cmd/efi-verify, goefi/cmd/efiload and goefi/cmd/recovery
--   share, over the interface Kernel.Services of the boot services that they call. Kernel.Config
--   is the configuration of the first two, Kernel.Verify, Kernel.Efiload and Kernel.Recovery are
--   main and executeKernel of each, Kernel.Variables the listing of variables in efiload, on a
--   number of rounds; Kernel.Verify fills the interface with the services of ueficore. io.ReadAll
--   is on a number of rounds, one for each read. Kernel.Start, Kernel.Loading, Kernel.Parsing,
--   Kernel.Boot and Kernel.Listing with Kernel.Cursor hold the theorems.
-- - Graphics: Init of goefi/pkg/uefi/graphics_output_protocol.go. Graphics.Init is Init on the
--   firmware, on a number of rounds, one for each mode and one to end: MaxMode is read again in
--   each. The loop over answers in Graphics has those of QueryMode and the call of SetMode as
--   parameters. Graphics.Highest and Graphics.Machine hold the theorems.
-- - Services.Boot, Services.Files with Services.Files.Layout, Services.Tables and
--   Services.System: the rest of goefi/pkg/ueficore, one function for each method. Services.Image
--   is LoadImage of image.go with the reading of its file, on a number of rounds, and
--   Services.Heap allocateHeap and init of goefi/pkg/ueficore/x64. Services.Safety,
--   Services.Contracts, Services.Failing, Services.Configuration, Services.MapRead,
--   Services.Region, Services.Reading and Services.Whole hold the theorems on them.
-- - Tests: the theorems at concrete inputs, and runs of the definitions.
--
-- The firmware, the assembly stub callFn, CPUID, tamago/dma, the clock of tamago, FixedZone and
-- Date of the package time, the package go-boot, the constants of the package bzimage and the
-- memory region of the runtime are parameters. A theorem that relies on one of them names what it
-- relies on as a hypothesis. Uint64 arithmetic is written with its wrap-around; an address of a
-- Go variable is not a number of the model but the variable itself.
--
-- Not modelled are the constants and types that no other code uses, memory management, the sleep
-- of Console.Read, the registration of the runtime's functions in x64.go, what the commands
-- print, the shell of go-boot, the assembly files, the stubs in Zig under src, and the signer.
pub mod Common
pub mod Wire
pub mod Status
pub mod Utf16
pub mod DevicePath
pub mod MemoryMap
pub mod Guid
pub mod Firmware
pub mod Utf8
pub mod Clock
pub mod Console
pub mod Disk
pub mod Graphics
pub mod Uefi
pub mod Cpu
pub mod Kernel
pub mod Serial
pub mod Services
pub mod Tests
