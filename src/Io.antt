-- ===== src/Io.antt =====
-- libusb/libusb/io.c: transfers in flight, their deadlines, and the events that the library waits for.
pub mod Time
pub mod Transfer
pub mod Flying
pub mod Lifecycle
pub mod Disconnect
pub mod Upcoming
pub mod Events
pub mod Locks
pub mod Handling
pub mod Setup
