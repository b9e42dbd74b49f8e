-- ===== src/Tests/Enumeration.antt =====
-- Three devices, one behind another, through libusb/libusb/core.c.
use zerousb.Prelude.{
  ℕ, ◌≡◌, ◌≤◌, ◌<◌, refl, true, List, [], ◌∷◌, arith, length, ◌==◌, if◌then◌else◌, All,
}
use zerousb.Usb.{ok, err, overflow}
use zerousb.Core.Devices.{
  Device, Context, Grants, get_device_list, free_device_list, get_port_numbers,
}
use zerousb.Core.Devices.Counts.{Counts}
use zerousb.Core.Devices.Lists.{Given, get_device_list-Given, free_device_list-get_device_list}
use zerousb.Core.Devices.Ports.{get_port_numbers-path}

-- A root hub, a hub at its port 2 and a device at port 4 of that.
abbrev tree : ℕ → Device
tree j =
    if j == 0
    then record { session_data = 0; port_number = 0; ancestors = [] }
    else if j == 1
    then record { session_data = 1; port_number = 2; ancestors = 0 ∷ [] }
    else record { session_data = j; port_number = 4; ancestors = 1 ∷ 0 ∷ [] }

abbrev plugged : Context
plugged = record {
  has_hotplug = true;
  usb_devs = 0 ∷ 1 ∷ 2 ∷ [];
  devices = tree;
  refcnt = λ j. 1;
  gone = [];
}

abbrev granting : Grants
granting = record { first = true; growth = λ j. true; answer = true }

plugged-All : All (λ x. 0 < plugged.refcnt x) plugged.usb_devs
plugged-All = (omega arith, (omega arith, (omega arith, tt)))

get_device_list-Given_example : Given granting plugged (get_device_list granting plugged)
get_device_list-Given_example = get_device_list-Given granting plugged plugged-All

plugged-list : (get_device_list granting plugged).0 ≡ ok (0 ∷ 1 ∷ 2 ∷ [])
unfolding get_device_list
plugged-list = refl

free_device_list-get_device_list_example :
    Counts plugged.refcnt plugged
      (free_device_list true (0 ∷ 1 ∷ 2 ∷ []) (get_device_list granting plugged).1)
free_device_list-get_device_list_example =
    free_device_list-get_device_list granting plugged (0 ∷ 1 ∷ 2 ∷ []) plugged-All plugged-list

get_port_numbers-path_example :
    (2 ≤ 3
      → (rest : List ℕ) × (get_port_numbers 2 (0 ∷ 0 ∷ 0 ∷ []) 3 plugged ≡ ok (2, 2 ∷ 4 ∷ rest))
        × (length (2 ∷ 4 ∷ rest) ≡ 3))
    × (3 < 2 → get_port_numbers 2 (0 ∷ 0 ∷ 0 ∷ []) 3 plugged ≡ err overflow)
get_port_numbers-path_example = get_port_numbers-path 2 (0 ∷ 0 ∷ 0 ∷ []) plugged (omega arith)
