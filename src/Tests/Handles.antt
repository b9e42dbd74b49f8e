-- ===== src/Tests/Handles.antt =====
-- Open handles in libusb/libusb/core.c and isochronous transfers in libusb/libusb/os/linux_usbfs.c.
use zerousb.Prelude.{replicate, ltb, ℕ, refl, true, none, some, [], ◌∷◌, arith, if◌then◌else◌, ◌==◌}
use zerousb.Core.Devices.{Context, Grants}
use zerousb.Core.Handles
use zerousb.Core.Handles.{Handles, open_device, close_device, open_with_ids}
use zerousb.Core.Handles.Balance.{IsBalanced, Opened, open_device-Opened}
use zerousb.Core.Handles.Close.{Closed, close_device-Closed}
use zerousb.Core.Handles.Ids.{Found, open_with_ids-Found}
use zerousb.Io.Transfer.{completed}
use zerousb.Linux.Bulk.Submit.{normal}
use zerousb.Linux.Iso
use zerousb.Linux.Iso.{IsoTransfer, einval, submit_iso_transfer}
use zerousb.Linux.Iso.Submitted.{IsIsoSent, submit_iso_transfer-IsIsoSent}
use zerousb.Linux.Iso.Reap.{Reaped, Reap, done, epipe}

-- Devices 3 and 4, with a reference each; handle 9 to device 4 is open, with transfer 21 in flight.
abbrev base : ℕ → ℕ
base j = 1

abbrev devices : Context
devices = record {
  has_hotplug = true;
  usb_devs = 3 ∷ 4 ∷ [];
  devices = λ d. record { session_data = d; port_number = 1; ancestors = [] };
  refcnt = λ d. if d == 4 then 2 else 1;
  gone = [];
}

abbrev one_open : Handles
one_open = record {
  ctx = devices;
  attached = λ d. true;
  open_devs = 9 ∷ [];
  allocated = 9 ∷ [];
  handle_dev = λ h. 4;
  flying = 21 ∷ [];
  dev_handle = λ t. 9;
}

one_open-IsBalanced : IsBalanced base one_open
one_open-IsBalanced = record {
  refs_lem = λ j. ground arith;
  once_lem = λ h. ground arith;
  memory_lem = λ h. refl;
  transfers_lem = λ t. ground arith;
  flying_lem = (omega arith, tt);
}

-- Memory for a handle at address 12.
abbrev granted : Handles.Answers
granted = record { malloc = some 12; mutex_init = true; backend_open = none }

open_device-Opened_example : Opened base granted 3 one_open (open_device granted 3 one_open)
open_device-Opened_example =
    open_device-Opened base granted 3 one_open one_open-IsBalanced (omega arith)
      (λ h e. ground (arith, e))

close_device-Closed_example : Closed base 9 one_open (close_device 9 one_open)
close_device-Closed_example =
    close_device-Closed base 9 one_open one_open-IsBalanced (λ e. absurd (omega (arith, e)))
      (omega arith) (omega arith)

abbrev all_memory : Grants
all_memory = record { first = true; growth = λ d. true; answer = true }

abbrev ids : ℕ → ℕ × ℕ
ids d = (0x534c, d)

open_with_ids-Found_example :
    Found base all_memory granted
      (0x534c, 3)
      ids
      one_open
      (open_with_ids all_memory granted (0x534c, 3) ids one_open)
open_with_ids-Found_example =
    open_with_ids-Found base all_memory granted (0x534c, 3) ids one_open one_open-IsBalanced
      (omega arith, (omega arith, tt)) (λ h e. ground (arith, e))

-- A transfer of two URBs: a packet that arrived, and one that stalled.
abbrev under_way : Reap
under_way = record {
  priv = record {
    urbs = true;
    reap_action = normal;
    num_urbs = 2;
    num_retired = 0;
    iso_packet_offset = 0;
  };
  results = λ j. record { status = completed; actual_length = 0 };
}

abbrev arrived : Reaped
arrived = record {
  index = some 0;
  status = done;
  packets = record { status = done; actual_length = 64 } ∷ [];
}

abbrev stalled : Reaped
stalled = record {
  index = some 1;
  status = done;
  packets = record { status = epipe; actual_length = 0 } ∷ [];
}

-- 130 packets in two URBs, of which the kernel refuses the second.
abbrev many_packets : IsoTransfer
many_packets = record { length = 8320; packets = replicate 130 64 }

abbrev refuses_second : Iso.Answers
refuses_second = record {
  array = true;
  urb = λ i. true;
  ioctl = λ i. if ltb i 1 then none else some einval;
}

submit_iso_transfer-IsIsoSent_example :
    IsIsoSent 1024 many_packets under_way.priv
      (submit_iso_transfer 1024 refuses_second many_packets under_way.priv)
submit_iso_transfer-IsIsoSent_example =
    submit_iso_transfer-IsIsoSent 1024 refuses_second many_packets under_way.priv
