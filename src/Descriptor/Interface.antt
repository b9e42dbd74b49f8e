-- ===== src/Descriptor/Interface.antt =====
-- Interfaces with their alternate settings in libusb/libusb/descriptor.c.
pub mod Setting
pub mod Body
pub mod Loop
pub mod Safety
pub mod Ownership
pub mod Refused
