-- ===== src/Descriptor.antt =====
-- usb-lib/src/core/descriptor.rs: the descriptors and their parsers.
pub mod Device
pub mod Qualifier
pub mod Companion
pub mod Endpoint
pub mod Hid
pub mod Interface
pub mod Chunks
pub mod Config
pub mod Hub
pub mod Bos
pub mod Nested
mod Tests
