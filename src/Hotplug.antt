-- ===== src/Hotplug.antt =====
-- The hotplug callbacks of a context: libusb/libusb/hotplug.c, with `struct libusb_hotplug_callback`
-- of libusb/libusb/hotplug.h.
pub mod Register
pub mod Registry
pub mod RoundTrip
use zerousb.Prelude.{
  ℕ, zero, suc, ◌+◌, ◌/◌, ◌^◌, ℤ, pos, negsuc, Bool, true, false, not, ◌&&◌, ◌||◌, ◌==◌, ltb, leb,
  if◌then◌else◌, Option, none, some, List, [], ◌∷◌, ◌++◌, test_bit, set_bit,
}
use zerousb.Usb.{Error, invalid_param, not_supported, no_mem, Result, ok, err}

pub data Event : Type 0 where
  arrived left : Event

-- LIBUSB_HOTPLUG_EVENT_DEVICE_ARRIVED is bit 0, LIBUSB_HOTPLUG_EVENT_DEVICE_LEFT bit 1.
abbrev pub event_bit : Event → ℕ
event_bit arrived = 0
event_bit left = 1

-- enum usbi_hotplug_flags, by bit.
abbrev pub vendor_id_valid : ℕ
vendor_id_valid = 3

abbrev pub product_id_valid : ℕ
product_id_valid = 4

abbrev pub dev_class_valid : ℕ
dev_class_valid = 5

abbrev pub needs_free : ℕ
needs_free = 6

-- What a match reads of a device.
pub record Device : Type 0 where
  pub id_vendor : ℕ
  pub id_product : ℕ
  pub b_device_class : ℕ

-- `cb` with `user_data` is a value of a type F.
pub record Callback (F : Type 0) : Type 0 where
  pub flags : ℕ
  pub vendor_id : ℕ
  pub product_id : ℕ
  pub dev_class : ℕ
  pub cb : F
  pub handle : ℕ

-- The part of `struct libusb_context` that hotplug.c works on. `completed` says whether
-- completed_transfers has entries; `signals` counts the calls of usbi_signal_event.
pub record Context (F : Type 0) : Type 0 where
  pub hotplug_cbs : List (Callback F)
  pub next_hotplug_cb_handle : ℕ
  pub hotplug_msgs : List (Event × Device)
  pub event_flags : ℕ
  pub device_close : ℕ
  pub completed : Bool
  pub signals : ℕ

-- What a callback does when it is called: its value, where a value other than 0 asks for removal, and
-- the handles that it deregisters.
abbrev pub Answers : Type 0 → Type 0
Answers F = F → Device → Event → Bool × List ℕ

abbrev pub is_empty : List (Event × Device) → Bool
is_empty [] = true
is_empty (m ∷ ms) = false

module _ {F : Type 0} where
  abbrev pub is_marked : Callback F → Bool
  is_marked c = test_bit c.flags needs_free

  -- The condition under which `usbi_hotplug_match_cb` calls the callback.
  unfoldable pub matches : Callback F → Device → Event → Bool
  matches c dev event =
      if not (test_bit c.flags (event_bit event))
      then false
      else if test_bit c.flags vendor_id_valid && not (c.vendor_id == dev.id_vendor)
      then false
      else if test_bit c.flags product_id_valid && not (c.product_id == dev.id_product)
      then false
      else if test_bit c.flags dev_class_valid && not (c.dev_class == dev.b_device_class)
      then false
      else true

  -- usbi_pending_events
  abbrev pub pending_events : Context F → Bool
  pending_events ctx =
      not (ctx.event_flags == 0)
      || not (ctx.device_close == 0)
      || not (is_empty ctx.hotplug_msgs)
      || ctx.completed

  abbrev pub signal_unless : Bool → Context F → Context F
  signal_unless pending ctx = if pending then ctx else record ctx { signals = suc ctx.signals }

  abbrev pub mark : Callback F → Callback F
  mark c = record c { flags = set_bit c.flags needs_free }

  -- Marking the callbacks of a handle, and whether there was one.
  unfoldable pub mark_handle : ℕ → List (Callback F) → Bool × List (Callback F)
  mark_handle h [] = (false, [])
  mark_handle h (c ∷ cs) =
      let (found, cs') = mark_handle h cs in
      if c.handle == h then (true, mark c ∷ cs') else (found, c ∷ cs')

  -- USBI_EVENT_HOTPLUG_CB_DEREGISTERED is bit 2 of event_flags. `hotplug` is
  -- libusb_has_capability(LIBUSB_CAP_HAS_HOTPLUG).
  unfoldable pub deregister_callback : Bool → ℕ → Context F → Context F
  unfolding mark_handle
  deregister_callback hotplug h ctx =
      if not hotplug
      then ctx
      else (let (found, cs) = mark_handle h ctx.hotplug_cbs in
          let ctx' = record ctx { hotplug_cbs = cs } in
          if found
          then signal_unless (pending_events ctx')
              (record ctx' { event_flags = set_bit ctx'.event_flags 2 })
          else ctx')

  unfoldable pub deregister_all : List ℕ → Context F → Context F
  unfolding deregister_callback
  deregister_all [] ctx = ctx
  deregister_all (h ∷ hs) ctx = deregister_all hs (deregister_callback true h ctx)

  -- usbi_hotplug_match_cb: its value, and the context as the callback leaves it.
  unfoldable pub match_cb : Answers F → Device → Event → Callback F → Context F → Bool × Context F
  unfolding matches deregister_all
  match_cb answers dev event c ctx =
      if matches c dev event
      then (let (remove, handles) = answers c.cb dev event in (remove, deregister_all handles ctx))
      else (false, ctx)

  abbrev pub find_handle : ℕ → List (Callback F) → Option (Callback F)
  find_handle h [] = none
  find_handle h (c ∷ cs) = let rest = find_handle h cs in if c.handle == h then some c else rest

  abbrev pub delete_handle : ℕ → List (Callback F) → List (Callback F)
  delete_handle h [] = []
  delete_handle h (c ∷ cs) =
      let rest = delete_handle h cs in if c.handle == h then rest else c ∷ rest

  abbrev pub handles : List (Callback F) → List ℕ
  handles [] = []
  handles (c ∷ cs) = c.handle ∷ handles cs

  -- The loop of `usbi_hotplug_match` at an entry: marked ones are left for usbi_hotplug_deregister.
  -- The value is what becomes of the context and whether the callback was called upon.
  unfoldable pub match_entry : Answers F → Device → Event → Callback F → Context F → Context F
  unfolding match_cb
  match_entry answers dev event c ctx =
      if is_marked c
      then ctx
      else (let (remove, ctx') = match_cb answers dev event c ctx in
          if remove
          then record ctx' { hotplug_cbs = delete_handle c.handle ctx'.hotplug_cbs }
          else ctx')

  -- list_for_each_entry_safe over the entries, named by their handles; a callback that deregisters
  -- others marks entries, and no entry but the current one goes.
  unfoldable pub match_loop : Answers F → Device → Event → List ℕ → Context F → Context F
  unfolding match_entry
  match_loop answers dev event [] ctx = ctx
  match_loop answers dev event (h ∷ hs) ctx = elim (find_handle h ctx.hotplug_cbs) [
    | none ↦ match_loop answers dev event hs ctx
    | some c ↦ match_loop answers dev event hs (match_entry answers dev event c ctx)
  ]

  unfoldable pub hotplug_match : Answers F → Device → Event → Context F → Context F
  unfolding match_loop
  hotplug_match answers dev event ctx = match_loop answers dev event (handles ctx.hotplug_cbs) ctx

  -- usbi_hotplug_notification; `granted` is whether calloc gives memory.
  unfoldable pub hotplug_notification : Bool → Device → Event → Context F → Context F
  hotplug_notification granted dev event ctx =
      if not granted
      then ctx
      else signal_unless (pending_events ctx)
          (record ctx { hotplug_msgs = ctx.hotplug_msgs ++ (event, dev) ∷ [] })

  -- The loop of `usbi_hotplug_deregister`, which frees the marked entries, or all.
  abbrev pub keep_unmarked : List (Callback F) → List (Callback F)
  keep_unmarked [] = []
  keep_unmarked (c ∷ cs) = let rest = keep_unmarked cs in if is_marked c then rest else c ∷ rest

  unfoldable pub hotplug_deregister : Bool → Context F → Context F
  hotplug_deregister forced ctx =
      if forced
      then record ctx { hotplug_cbs = [] }
      else record ctx { hotplug_cbs = keep_unmarked ctx.hotplug_cbs }
