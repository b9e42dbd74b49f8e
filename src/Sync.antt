-- ===== src/Sync.antt =====
-- Synchronous transfers: libusb/libusb/sync.c.
pub mod Wait
pub mod Transfer
pub mod Ends
pub mod Calls
