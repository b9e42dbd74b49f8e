-- ===== src/Core/Handles.antt =====
-- The open handles of libusb/libusb/core.c: `libusb_open`, `libusb_close` with `do_close`, and
-- `libusb_open_device_with_vid_pid`. How `libusb_close` keeps the event handler out is in Io/Locks.
pub mod Balance
pub mod Close
pub mod Find
pub mod Ids
use zerousb.Prelude.{
  ℕ, ◌+◌, Bool, true, false, ◌&&◌, not, Option, none, some, List, [], ◌∷◌, if◌then◌else◌, ◌==◌,
}
use zerousb.Usb.{Error, no_mem, no_device, other, Result, ok, err}
use zerousb.Core.Devices.{
  Context, ref_device, unref_device, remove, Grants, get_device_list, free_device_list,
}

-- `ctx` are the devices with their references; `open_devs` are the open handles by their addresses,
-- which are not 0; `allocated` are those of the handles in memory, `handle_dev` their devices;
-- `flying` is `flying_transfers`, and `dev_handle` that field of a transfer, 0 for NULL.
pub record Handles : Type 0 where
  pub ctx : Context
  pub attached : ℕ → Bool
  pub open_devs : List ℕ
  pub allocated : List ℕ
  pub handle_dev : ℕ → ℕ
  pub flying : List ℕ
  pub dev_handle : ℕ → ℕ

-- What the system and the backend answer in libusb_open.
pub record Answers : Type 0 where
  pub malloc : Option ℕ
  pub mutex_init : Bool
  pub backend_open : Option Error

abbrev pub set_at : ℕ → ℕ → (ℕ → ℕ) → ℕ → ℕ
set_at k v f j = if j == k then v else f j

-- free
abbrev pub free_handle : ℕ → Handles → Handles
free_handle h s = record s { allocated = remove h s.allocated }

-- From libusb_ref_device on: the backend's `open`, and what is undone where it fails.
abbrev pub open_handle : Option Error → ℕ → ℕ → Handles → Result ℕ × Handles
open_handle (some x) h dev s =
    (err x, free_handle h (record s { ctx = unref_device dev (ref_device dev s.ctx) }))
open_handle none h dev s =
    (ok h, record s { ctx = ref_device dev s.ctx; open_devs = h ∷ s.open_devs })

abbrev pub make_handle : Option ℕ → Bool → Option Error → ℕ → Handles → Result ℕ × Handles
make_handle none works backend dev s = (err no_mem, s)
make_handle (some h) works backend dev s =
    let made = record s { allocated = h ∷ s.allocated; handle_dev = set_at h dev s.handle_dev } in
    if not works then (err other, free_handle h made) else open_handle backend h dev made

-- libusb_open
unfoldable pub open_device : Answers → ℕ → Handles → Result ℕ × Handles
open_device a dev s =
    if not (s.attached dev)
    then (err no_device, s)
    else make_handle a.malloc a.mutex_init a.backend_open dev s

-- The loop of do_close over the transfers in flight: those that stay listed, and their handles.
abbrev pub close_transfers : ℕ → List ℕ → (ℕ → ℕ) → List ℕ × (ℕ → ℕ)
close_transfers h [] dh = ([], dh)
close_transfers h (t ∷ ts) dh =
    let (l, dh') = close_transfers h ts (if dh t == h then set_at t 0 dh else dh) in
    (if dh t == h then l else t ∷ l, dh')

-- do_close; the backend's `close` acts on data of its own.
unfoldable pub do_close : ℕ → Handles → Handles
do_close h s =
    let (l, dh) = close_transfers h s.flying s.dev_handle in
    free_handle h (record s {
      flying = l;
      dev_handle = dh;
      open_devs = remove h s.open_devs;
      ctx = unref_device (s.handle_dev h) s.ctx;
    })

-- libusb_close
unfoldable pub close_device : ℕ → Handles → Handles
unfolding do_close
close_device h s = if h == 0 then s else do_close h s

-- The loop over the list of devices; `ids` are idVendor and idProduct of a device's descriptor, which
-- libusb_get_device_descriptor always gives.
abbrev pub find_ids : ℕ × ℕ → (ℕ → ℕ × ℕ) → List ℕ → Option ℕ
find_ids wanted ids [] = none
find_ids wanted ids (dev ∷ devs) =
    if (ids dev).0 == wanted.0 && (ids dev).1 == wanted.1
    then some dev
    else find_ids wanted ids devs

-- if (found) ...: the handle, or NULL.
abbrev pub open_found : Answers → Option ℕ → Handles → Option ℕ × Handles
open_found a none s = (none, s)
open_found a (some dev) s =
    let (r, s') = open_device a dev s in elim r [ ok h ↦ (some h, s') | err x ↦ (none, s') ]

abbrev pub open_listed :
    Answers → ℕ × ℕ → (ℕ → ℕ × ℕ) → Result (List ℕ) × Context → Handles → Option ℕ × Handles
open_listed a wanted ids (err x, ctx) s = (none, record s { ctx = ctx })
open_listed a wanted ids (ok devs, ctx) s =
    let (o, s') = open_found a (find_ids wanted ids devs) (record s { ctx = ctx }) in
    (o, record s' { ctx = free_device_list true devs s'.ctx })

-- libusb_open_device_with_vid_pid
unfoldable pub open_with_ids : Grants → Answers → ℕ × ℕ → (ℕ → ℕ × ℕ) → Handles → Option ℕ × Handles
open_with_ids g a wanted ids s = open_listed a wanted ids (get_device_list g s.ctx) s
