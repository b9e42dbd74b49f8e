-- ===== src/Core/Devices.antt =====
-- The devices that a context knows in libusb/libusb/core.c: their reference counts, the list given to
-- the user, the lookup by session and the ports that lead to a device.
pub mod Counts
pub mod Lists
pub mod Ports
use zerousb.Prelude.{
  ℕ, zero, suc, ◌+◌, ◌-◌, not, Bool, true, false, Option, none, some, List, [], ◌∷◌, ◌++◌, take,
  drop, length, ltb, leb, if◌then◌else◌, ◌==◌,
}
use zerousb.Usb.{Error, io, no_mem, invalid_param, overflow, Result, ok, err, max_config}

-- struct libusb_device, less its reference count. `ancestors` are its parent_dev, the parent_dev of
-- that device and so on.
pub record Device : Type 0 where
  pub session_data : ℕ
  pub port_number : ℕ
  pub ancestors : List ℕ

-- `usb_devs` and the devices by their addresses; the counts of a device that exists are at least 1.
-- `gone` are the devices that were freed.
pub record Context : Type 0 where
  pub has_hotplug : Bool
  pub usb_devs : List ℕ
  pub devices : ℕ → Device
  pub refcnt : ℕ → ℕ
  pub gone : List ℕ

abbrev pub set_refcnt : ℕ → ℕ → Context → Context
set_refcnt dev n ctx = record ctx { refcnt = λ j. if j == dev then n else ctx.refcnt j }

-- libusb_ref_device
unfoldable pub ref_device : ℕ → Context → Context
ref_device dev ctx = set_refcnt dev (ctx.refcnt dev + 1) ctx

-- list_del
abbrev pub remove : ℕ → List ℕ → List ℕ
remove x [] = []
remove x (y ∷ ys) = if y == x then ys else y ∷ remove x ys

-- The end of libusb_unref_device: the device is freed, and disconnected if there is no hotplug.
abbrev pub destroy : ℕ → Context → Context
destroy dev ctx = record ctx {
  gone = dev ∷ ctx.gone;
  usb_devs = if not ctx.has_hotplug then remove dev ctx.usb_devs else ctx.usb_devs;
}

-- libusb_unref_device of the first device of a chain of parents.
unfoldable pub unref_chain : List ℕ → Context → Context
unref_chain [] ctx = ctx
unref_chain (dev ∷ parents) ctx =
    let left = ctx.refcnt dev - 1 in
    let rest = unref_chain parents (set_refcnt dev left ctx) in
    if left == 0 then destroy dev rest else set_refcnt dev left ctx

unfoldable pub unref_device : ℕ → Context → Context
unfolding unref_chain
unref_device dev ctx = unref_chain (dev ∷ (ctx.devices dev).ancestors) ctx

abbrev pub ref_all : List ℕ → Context → Context
ref_all [] ctx = ctx
ref_all (dev ∷ devs) ctx = ref_all devs (ref_device dev ctx)

abbrev pub unref_all : List ℕ → Context → Context
unref_all [] ctx = ctx
unref_all (dev ∷ devs) ctx = unref_all devs (unref_device dev ctx)

-- struct discovered_devs, of `len` devices.
pub record Discovered : Type 0 where
  pub devices : List ℕ
  pub capacity : ℕ

-- DISCOVERED_DEVICES_SIZE_STEP
abbrev pub size_step : ℕ
size_step = 8

-- discovered_devs_free, of the references.
unfoldable pub discovered_devs_free : Discovered → Context → Context
discovered_devs_free d ctx = unref_all d.devices ctx

-- discovered_devs_append; `granted` is what realloc answers if it is called.
unfoldable pub discovered_devs_append :
    Bool → Discovered → ℕ → Context → Option Discovered × Context
unfolding discovered_devs_free
discovered_devs_append granted d dev ctx =
    let added = d.devices ++ dev ∷ [] in
    if ltb (length d.devices) d.capacity
    then (some (record d { devices = added }), ref_device dev ctx)
    else if not granted
    then (none, discovered_devs_free d ctx)
    else (some (record { devices = added; capacity = d.capacity + size_step }), ref_device dev ctx)

-- Which allocations are granted: the first, the growth for each device, and that of the answer.
pub record Grants : Type 0 where
  pub first : Bool
  pub growth : ℕ → Bool
  pub answer : Bool

-- list_for_each_entry(dev, &ctx->usb_devs, ...)
unfoldable pub append_all : (ℕ → Bool) → List ℕ → Discovered → Context → Option Discovered × Context
unfolding discovered_devs_append
append_all growth [] d ctx = (some d, ctx)
append_all growth (dev ∷ devs) d ctx =
    let (o, ctx') = discovered_devs_append (growth dev) d dev ctx in
    elim o [ none ↦ (none, ctx') | some d' ↦ append_all growth devs d' ctx' ]

-- From the discovered devices to the list for the user.
unfoldable pub give_out : Bool → Discovered → Context → Result (List ℕ) × Context
unfolding discovered_devs_free
give_out granted d ctx =
    if not granted
    then (err no_mem, discovered_devs_free d ctx)
    else (ok d.devices, discovered_devs_free d (ref_all d.devices ctx))

-- libusb_get_device_list where the backend has hotplug support, behind the call of its hotplug_poll,
-- which may change the known devices.
unfoldable pub get_device_list : Grants → Context → Result (List ℕ) × Context
unfolding append_all give_out
get_device_list g ctx =
    if not g.first
    then (err no_mem, ctx)
    else (let (o, ctx') =
          append_all g.growth ctx.usb_devs (record { devices = []; capacity = size_step }) ctx in
        elim o [ none ↦ (err no_mem, ctx') | some d ↦ give_out g.answer d ctx' ])

-- libusb_free_device_list of a list that is not NULL.
unfoldable pub free_device_list : Bool → List ℕ → Context → Context
free_device_list unref_devices list ctx = if unref_devices then unref_all list ctx else ctx

abbrev pub find_session : ℕ → (ℕ → Device) → List ℕ → Option ℕ
find_session s devices [] = none
find_session s devices (dev ∷ devs) =
    if (devices dev).session_data == s then some dev else find_session s devices devs

-- usbi_get_device_by_session_id
unfoldable pub get_device_by_session_id : ℕ → Context → Option ℕ × Context
get_device_by_session_id s ctx = elim (find_session s ctx.devices ctx.usb_devs) [
  | none ↦ (none, ctx)
  | some dev ↦ (some dev, ref_device dev ctx)
]

-- array[i] = v
abbrev pub write_at : ℕ → ℕ → List ℕ → List ℕ
write_at i v [] = []
write_at zero v (x ∷ xs) = v ∷ xs
write_at (suc i) v (x ∷ xs) = x ∷ write_at i v xs

-- The loop of libusb_get_port_numbers over a device and its ancestors: the index reached and the
-- array. `left` is i before the device is looked at.
unfoldable pub port_loop : (ℕ → Device) → List ℕ → ℕ → List ℕ → Result (ℕ × List ℕ)
port_loop devices [] left array = ok (left, array)
port_loop devices (dev ∷ devs) left array =
    let port = (devices dev).port_number in
    let rest = port_loop devices devs (left - 1) (write_at (left - 1) port array) in
    if port == 0 then ok (left, array) else if left == 0 then err overflow else rest

-- memmove(port_numbers, &port_numbers[i], port_numbers_len - i), and the number returned.
abbrev pub move_down : ℕ → ℕ × List ℕ → ℕ × List ℕ
move_down len (i, array) =
    let n = len - i in (n, (if ltb i len then take n (drop i array) ++ drop n array else array))

abbrev pub answer_ports : ℕ → Result (ℕ × List ℕ) → Result (ℕ × List ℕ)
answer_ports len (err x) = err x
answer_ports len (ok r) = ok (move_down len r)

-- libusb_get_port_numbers, with an array of `len` bytes.
unfoldable pub get_port_numbers : ℕ → List ℕ → ℕ → Context → Result (ℕ × List ℕ)
unfolding port_loop
get_port_numbers dev array len ctx =
    if len == 0
    then err invalid_param
    else answer_ports len (port_loop ctx.devices (dev ∷ (ctx.devices dev).ancestors) len array)
