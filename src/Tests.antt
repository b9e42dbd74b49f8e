-- ===== src/Tests.antt =====
-- Runs of the model at concrete inputs, and instances of its theorems.
pub mod Descriptors
pub mod Transfers
pub mod Devices
pub mod Requests
pub mod Events
pub mod Handles
pub mod Enumeration
pub mod Bulk
pub mod Contexts
