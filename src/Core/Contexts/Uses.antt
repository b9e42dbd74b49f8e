-- ===== src/Core/Contexts/Uses.antt =====
-- The uses of the contexts of libusb/libusb/core.c, which are what `libusb_init` and `libusb_exit` count.
pub mod Defs
pub mod Exit
pub mod Init
