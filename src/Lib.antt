-- ===== src/Lib.antt =====
-- A verification library for usb-lib, a Rust library for USB devices with a backend for each platform.
--
-- The program's parts. `core` has the data that everything shares: descriptor parsers, setup packets,
-- endpoint and policy types. A backend (`backend/linux.rs`, `backend/windows.rs`, `backend/mock.rs`)
-- implements the traits `UsbBackend` and `UsbDevice` of `backend/mod.rs` on top of system calls: it moves
-- bytes, and hands them to the parsers of `core`. `api` gives clients a `DeviceHandle`, a shared and
-- locked device of any backend, and async functions that run its blocking transfers on other threads.
--
-- Which file models which part, with the paths of the repository:
--   Base                 shared notation, lists, bits, maps and sets of numbers
--   Error                usb-lib/src/error.rs: `UsbError`; `Result` also has panics and fuel that ran out
--   Bytes                `buf[i]`, `&buf[a..b]` and `from_le_bytes` of Rust
--   Text                 `String::from_utf16_lossy` of Rust, with the standard's encoding; Numbers: parsing and
--                        printing numbers, Search: the methods of `str`
--   Descriptor           usb-lib/src/core/descriptor.rs, a child for each descriptor; under Config and Bos:
--                        Refine (the loop as a decoding of records), Total, Encode, RoundTrip
--   Transfer             usb-lib/src/core/transfer.rs
--   Endpoint             usb-lib/src/core/endpoint.rs
--   PipePolicy           usb-lib/src/core/pipe_policy.rs
--   Backend              usb-lib/src/backend/mod.rs and usb-lib/src/core/device.rs: the traits as records
--   Mock                 usb-lib/src/backend/mock.rs; Claims: interfaces, Devices: the table of devices
--   Handle               usb-lib/src/api/device_handle.rs; Calls and Sharing: calls through shared handles;
--                        Blocking: usb-lib/src/api/async_transfers.rs
--   Linux                usb-lib/src/backend/linux.rs: the ioctls; Device, Isoch, Backend: the operations;
--                        Read, Strings, Cache, Open, Packets, Guards: their properties; Enumerate: udev
--   Windows              usb-lib/src/backend/windows.rs: the calls of WinUSB; Open, Device, Transfers,
--                        Policy, Overlapped, Isoch: the operations; Ledger, Lifetime, Drop, Files, Session,
--                        Using: the interface handles and the files; Events, Buffers, Leaks: the event handles and
--                        the buffers of transfers; SetupApi, Enumerate and HardwareId: enumeration, with
--                        Quiet, Listing and HardwareIds
--   MacOs                usb-lib/src/backend/macos.rs: Path and Registry: enumeration and the search for a
--                        device, with Reopen and References; Iokit: the calls of IOKit; Device, Interfaces,
--                        Pipes, Backend: the operations; Ledger, Searches, Looks, Balance, Lifecycle: the
--                        references to IOKit objects; Mapped, Routing: the pipes of endpoints; Claims,
--                        Serving: the claimed interfaces
--   Hotplug              usb-lib/src/hotplug.rs: Worker (the thread of Linux and the drop that stops it), with
--                        Delivery and Stopping; Callback and Registration (the notifications of Windows);
--                        RunLoop (the thread of macOS), with Contexts, Ending and Paths
--   Context              usb-lib/src/api/context.rs: devices that are opened through the entry point
-- The modules called Tests have runs on concrete inputs.
--
-- State. `&mut self`, and `&self` with state behind it, are state passing: an operation of type `Op S A`
-- takes the state and returns its result beside the new state, on errors too. A caller's buffer is
-- returned beside the result. A device of one of the three backends is an `Attached` record: the
-- struct of the source and the world that its system calls act on. What the kernel, WinUSB and IOKit do is a
-- parameter, a record of calls (`Kernel`, `WinUsb`, `SetupApi`, `Iokit`); theorems that depend on it have what is documented of
-- it as named hypotheses (`Serves`, `WritesBytes`, `Ledger`, `Remembers`, `Events`,
-- `Files`, `Buffers`, `Sets`, `Account`), and the Tests modules
-- have an instance of each.
--
-- Bounds. Numbers are natural numbers; where the source casts or shifts to a machine width, the wrap-around
-- is written out. The loops of the two descriptor parsers run on fuel of one more than the length of the
-- buffer. Every round moves the position on, so the fuel is never used up, which the totality theorems
-- show. The searches of the Windows backend go through 32 indices, as in the source. The
-- loop of its enumeration runs on fuel; more than the number of interfaces in a set is enough. All other
-- recursion is on the structure of lists.
--
-- Not modelled: `UsbContext::register_hotplug`, which passes on the platform's function, the
-- declarations of foreign functions, and logging. `to_uppercase` of Rust's strings is a parameter.
pub mod Base
pub mod Error
pub mod Bytes
pub mod Descriptor
pub mod Transfer
pub mod Endpoint
pub mod PipePolicy
pub mod Text
pub mod Backend
pub mod Mock
pub mod Handle
pub mod Linux
pub mod MacOs
pub mod Windows
pub mod Hotplug
pub mod Context
