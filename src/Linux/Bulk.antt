-- ===== src/Linux/Bulk.antt =====
-- Bulk and interrupt transfers in libusb/libusb/os/linux_usbfs.c.
pub mod Submit
pub mod Reap
pub mod Cancel
pub mod Split
pub mod Rounds
pub mod Drain
pub mod Early
