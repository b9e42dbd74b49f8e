-- ===== src/Linux/Seek.antt =====
-- How libusb/libusb/os/linux_usbfs.c finds a configuration among the descriptors that the kernel
-- reports: `seek_to_next_descriptor`, `seek_to_next_config` and `op_get_config_descriptor`.
pub mod Runs
use zerousb.Prelude.{
  ℕ, zero, suc, ◌+◌, ◌-◌, not, Bool, true, false, ◌&&◌, List, [], ◌∷◌, Outcome, ret, fault,
  out_of_fuel, ◌>>=◌, if◌then◌else◌, ◌==◌, ltb, take, min,
}
use zerousb.Usb.{Error, io, not_found, Result, ok, err, dt_config}
use zerousb.Descriptor.Format.{bus, parse_descriptor, field_at}
use zerousb.Descriptor.Cursor.{Cursor, advance, header}
use zerousb.Descriptor.Config.{config_format}

-- The loop at offset i. `size -= header.bLength` below 0 ends it, with LIBUSB_ERROR_IO.
unfoldable pub seek_loop : ℕ → ℕ → Cursor → ℕ → Outcome (Result ℕ)
seek_loop zero kind c i = fault out_of_fuel
seek_loop (suc f) kind c i =
    if c.size == 0 then ret (err not_found) else if ltb c.size 2 then ret (err io) else (do
      (len, t) ← header c
      let rest = seek_loop f kind (advance len c) (i + len)
      if not (i == 0) && t == kind
          then ret (ok i)
          else if ltb c.size len
          then ret (err io)
          else rest)

-- The fuel is the most rounds that descriptors with a length of their own can make.
unfoldable pub seek_to_next_descriptor : ℕ → Cursor → Outcome (Result ℕ)
unfolding seek_loop
seek_to_next_descriptor kind c = seek_loop (suc c.size) kind c 0

-- `sysfs` says whether the descriptors come from sysfs (sysfs_has_descriptors).
unfoldable pub seek_to_next_config : Bool → Cursor → Outcome (Result ℕ)
seek_to_next_config sysfs c =
    if c.size == 0 then ret (err not_found) else if ltb c.size 9 then ret (err io) else (do
      (ws, n) ← parse_descriptor config_format c.buffer 0 bus
      let total_length = field_at ws 2 0
      if not (field_at ws 1 0 == dt_config)
          then ret (err io)
          else if sysfs
          then (do
            next ← seek_to_next_descriptor dt_config c
            elim next [ ok i ↦ ret (ok i) | err not_found ↦ ret (ok c.size) | err x ↦ ret (err x) ])
          else if ltb total_length 9
          then ret (err io)
          else if ltb c.size total_length
          then ret (ok c.size)
          else ret (ok total_length))

-- The loop of `op_get_config_descriptor` with `index` configurations still to be passed over.
unfoldable pub nth_config : Bool → ℕ → Cursor → Outcome (Result (List ℕ))
nth_config sysfs zero c = do
  r ← seek_to_next_config sysfs c
  elim r [ err x ↦ ret (err x) | ok n ↦ ret (ok (take n c.buffer)) ]
nth_config sysfs (suc index) c = do
  r ← seek_to_next_config sysfs c
  elim r [ err x ↦ ret (err x) | ok n ↦ nth_config sysfs index (advance n c) ]

-- DEVICE_DESC_LENGTH bytes of device descriptor come first; if there are fewer, the size left is
-- negative, and seek_to_next_config's test on 9 bytes fails. At most `len` bytes are copied.
unfoldable pub op_get_config_descriptor : Bool → ℕ → ℕ → Cursor → Outcome (Result (List ℕ))
unfolding nth_config
op_get_config_descriptor sysfs index len c = if ltb c.size 18 then ret (err io) else (do
  r ← nth_config sysfs index (advance 18 c)
  elim r [ err x ↦ ret (err x) | ok bytes ↦ ret (ok (take len bytes)) ])
