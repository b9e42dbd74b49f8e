-- ===== src/Core.antt =====
-- The parts of libusb/libusb/core.c that work on open handles and on parsed configurations.
pub mod Claims
pub mod Contexts
pub mod Devices
pub mod Endpoints
pub mod Handles
