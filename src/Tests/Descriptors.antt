-- ===== src/Tests/Descriptors.antt =====
-- A configuration with one interface and one bulk endpoint, through libusb/libusb/descriptor.c and
-- libusb/libusb/os/linux_usbfs.c.
use zerousb.Prelude.{ℕ, ◌≡◌, refl, true, List, [], ◌∷◌, ret, Guarded, arith, length}
use zerousb.Usb.{ok}
use zerousb.Descriptor.Format.{bus}
use zerousb.Descriptor.Cursor.{Cursor}
use zerousb.Descriptor.Heap.{Grants, Heap}
use zerousb.Descriptor.Interface.Setting.{items, zero_interface}
use zerousb.Descriptor.Interface.Loop.{parse_interface}
use zerousb.Descriptor.Interface.Ownership.{Refuses, InterfacePost, parse_interface-Guarded}
use zerousb.Descriptor.Interface.Refused.{parse_interface-stray}
use zerousb.Descriptor.Config.{raw_desc_to_config}
use zerousb.Descriptor.Config.Memory.{RawPost, raw_desc_to_config-Guarded}
use zerousb.Descriptor.Chain.{at, Desc}
use zerousb.Linux.Seek.{seek_to_next_descriptor}
use zerousb.Linux.Seek.Runs.{seek_to_next_descriptor-first_offset}

abbrev endpoint_bytes : List ℕ
endpoint_bytes = 7 ∷ 5 ∷ 0x81 ∷ 2 ∷ 64 ∷ 0 ∷ 1 ∷ []

abbrev interface_bytes : List ℕ
interface_bytes = 9 ∷ 4 ∷ 0 ∷ 0 ∷ 1 ∷ 255 ∷ 0 ∷ 0 ∷ 0 ∷ endpoint_bytes

abbrev config_bytes : List ℕ
config_bytes = 9 ∷ 2 ∷ 25 ∷ 0 ∷ 1 ∷ 1 ∷ 0 ∷ 128 ∷ 50 ∷ interface_bytes

abbrev always : Grants
always n = true

abbrev no_blocks : Heap
no_blocks = record { calls = 0; live = 0 }

abbrev all_of : List ℕ → Cursor
all_of bytes = record { buffer = bytes; size = length bytes }

parse_interface-Guarded_example :
    Guarded
      (Refuses always)
      (parse_interface always zero_interface (all_of interface_bytes) bus no_blocks)
      (InterfacePost always 0 16)
parse_interface-Guarded_example =
    parse_interface-Guarded always (all_of interface_bytes) bus no_blocks (omega arith)

parse_interface-stray_example :
    parse_interface always zero_interface
      (record { buffer = config_bytes; size = 25 })
      bus
      no_blocks
    ≡ ret
        (ok 0, record { altsetting = items []; num_altsetting = 0 }, record { calls = 1; live = 1 })
parse_interface-stray_example =
    parse_interface-stray always 9 2 (25 ∷ 0 ∷ 1 ∷ 1 ∷ 0 ∷ 128 ∷ 50 ∷ interface_bytes) 25 bus
      no_blocks (omega arith) (omega arith) (λ e. absurd (omega arith)) refl

raw_desc_to_config-Guarded_example :
    Guarded
      (Refuses always)
      (raw_desc_to_config always (all_of config_bytes) bus no_blocks)
      (RawPost 1 0)
raw_desc_to_config-Guarded_example =
    raw_desc_to_config-Guarded always (all_of config_bytes) bus no_blocks (omega arith)

-- A device descriptor's place is taken by a configuration, then an interface and a configuration.
abbrev first_config : Desc
first_config = record { kind = 2; body = 9 ∷ [] }

abbrev some_interface : Desc
some_interface = record { kind = 4; body = [] }

seek_to_next_descriptor-first_offset_example :
    seek_to_next_descriptor 2 (at (first_config ∷ some_interface ∷ first_config ∷ []) [])
    ≡ ret (ok 5)
seek_to_next_descriptor-first_offset_example =
    seek_to_next_descriptor-first_offset 2 first_config (some_interface ∷ first_config ∷ [])
