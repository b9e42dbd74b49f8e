-- ===== src/Lib.antt =====
-- Verification of libusb as the Go package zerousb builds it into itself (libusb/ of this repository).
--
-- The program hands a device's descriptors and transfers between user code and the kernel. The parts
-- modelled here, and how they meet:
--   * Descriptor: libusb/libusb/descriptor.c. `usbi_parse_descriptor` reads bytes by a format
--     (Descriptor/Format.antt); `parse_endpoint`, `parse_interface`, `parse_configuration` and
--     `raw_desc_to_config` (Endpoint, Interface and Config) use it on a cursor, which is the C
--     function's `buffer` and `size` (Cursor), and on a heap that counts live blocks (Heap). Integers
--     are those read from bytes, so that no sum wraps. A read past the bytes, of freed memory or
--     through NULL is a fault (Prelude/Outcomes.antt), not a value. Fetch has the requests for a
--     configuration and its search by value, Companion the search for an endpoint's companion, Bos
--     (with Bos/Capability) the device's capabilities, Strings the conversion of a string descriptor.
--     What a device or backend answers is an argument.
--   * Io: libusb/libusb/io.c. The transfers in flight are a list of addresses into a store
--     (Io/Transfer.antt), ordered by deadline (Flying); Lifecycle has the operations on them:
--     `libusb_submit_transfer`, `libusb_cancel_transfer`, `usbi_handle_transfer_completion` and
--     `handle_timeouts_locked`. Locks are left out there: each operation is one step. What the
--     backend, the clock and the timer answer is an argument, and so is what the user's callback
--     does. A flag word is one Boolean for each of its flags. Disconnect has
--     `usbi_handle_disconnect`, Upcoming the time that poll() may wait (`libusb_get_next_timeout`),
--     and Events what is pending for the event handler: each place that writes or reads the event pipe
--     is a step on the event data. Setup has `usbi_io_init` and `usbi_io_exit`. Handling
--     has a round of `handle_events`, given what poll() reports. Locks has the places of
--     any number of threads in `libusb_handle_events_timeout_completed`, `libusb_unlock_events` and
--     `libusb_close`, each access to a lock or to shared data being a step of its own.
--   * Sync: libusb/libusb/sync.c. The calls allocate a transfer, submit it by Lifecycle and wait; what
--     a round of event handling does to the shared memory is an argument.
--   * Core: libusb/libusb/core.c. Claims has the mask of claimed interfaces of a handle, whose backend
--     is a record of functions; Endpoints has the search in a configuration that Descriptor parsed.
--     Devices has the known devices with their reference counts, the list given to the user and the
--     port numbers; a device's chain of parents is a list, which ends as parent_dev does. Contexts has
--     `libusb_init` and `libusb_exit` with the default context, and calls Setup; Handles has
--     `libusb_open`, `libusb_close` and `libusb_open_device_with_vid_pid`, which uses the list of Devices.
--   * Hotplug: libusb/libusb/hotplug.c. The callbacks of a context, named by their handles, which are
--     distinct until the counter of handles wraps round. A callback's answer is an argument.
--   * Linux: libusb/libusb/os/linux_usbfs.c. The walk over the kernel's copy of the descriptors, whose
--     result Descriptor parses (Seek); the splitting, reaping and cancelling of bulk and interrupt
--     transfers (Bulk); the life of control transfers (Control); the cutting of isochronous transfers
--     and the copying of their results (Iso). The kernel's answers are arguments,
--     and the moves of surplus data are recorded, not carried out.
-- Prelude has what these share, Usb the codes of libusb/libusb/libusb.h, Tests runs and instances.
--
-- Bounds: the loops over descriptors run on fuel that is one more than the size in bytes. Each round
-- but the last of those in descriptor.c consumes at least two bytes, so that the fuel is enough on any
-- input; the loop of linux_usbfs.c does not test that, since the kernel gives it only descriptors whose
-- length is verified, and its fuel is enough for descriptors that have a length.
--
-- The loop of `usbi_handle_disconnect` runs on fuel too: each round takes one of the handle's transfers
-- off the list, and one round more finds none. The wait for a synchronous transfer checks once for each
-- round of event handling until the transfer is completed, and once more. `usbi_signal_event` and
-- `usbi_clear_event` are taken to succeed: they write and read one byte of a pipe.
--
-- Not modelled: poll; the hotplug callbacks that `handle_events` runs, and the events that
-- `libusb_exit` handles; the enumeration of devices and the kernel's versions in the Linux backend; the
-- backends of other systems; the Go code, which calls the library and little else; logging.
pub mod Prelude
pub mod Usb
pub mod Core
pub mod Hotplug
pub mod Descriptor
pub mod Io
pub mod Linux
pub mod Sync
pub mod Tests
