-- ===== src/MacOs.antt =====
-- usb-lib/src/backend/macos.rs: the IOKit backend. Path: the paths of devices; Registry: enumeration
-- and the search for a device; Reopen and References: what they promise.
pub mod Iokit
pub mod Device
pub mod Interfaces
pub mod Pipes
pub mod Backend
pub mod Ledger
pub mod Searches
pub mod Looks
pub mod Balance
pub mod Mapped
pub mod Routing
pub mod Lifecycle
pub mod Claims
pub mod Serving
pub mod Path
pub mod Registry
pub mod Reopen
pub mod References
mod Shelf
mod Tests
