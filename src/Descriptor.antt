-- ===== src/Descriptor.antt =====
-- libusb/libusb/descriptor.c: from the bytes that a device reports to the descriptor structures.
pub mod Format
pub mod Cursor
pub mod Heap
pub mod Endpoint
pub mod Interface
pub mod Config
pub mod Fetch
pub mod Companion
pub mod Bos
pub mod Strings
pub mod Chain
