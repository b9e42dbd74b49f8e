-- ===== src/Linux.antt =====
-- libusb/libusb/os/linux_usbfs.c: the parts of the Linux backend that are modelled.
pub mod Seek
pub mod Bulk
pub mod Control
pub mod Iso
