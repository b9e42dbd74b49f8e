-- ===== src/Hotplug/Register.antt =====
-- `libusb_hotplug_register_callback` of libusb/libusb/hotplug.c.
use zerousb.Prelude.{
  ℕ, zero, suc, ◌^◌, ℤ, pos, negsuc, Bool, true, false, not, ◌&&◌, ◌||◌, ◌==◌, ltb, leb,
  if◌then◌else◌, Option, none, some, List, [], ◌∷◌, test_bit, set_bit,
}
use zerousb.Usb.{invalid_param, not_supported, no_mem, Result, ok, err}
use zerousb.Hotplug.{
  arrived, Device, Callback, Context, Answers, match_cb, deregister_callback, vendor_id_valid,
  product_id_valid, dev_class_valid,
}

-- LIBUSB_HOTPLUG_MATCH_ANY is -1; every other negative number has bits outside the mask.
abbrev pub is_sane : ℤ → ℕ → Bool
is_sane (negsuc zero) bound = true
is_sane (negsuc (suc n)) bound = false
is_sane (pos n) bound = ltb n bound

abbrev pub flag_id : ℤ → ℕ → ℕ → ℕ
flag_id (negsuc n) bit flags = flags
flag_id (pos n) bit flags = set_bit flags bit

abbrev pub id_of : ℤ → ℕ
id_of (negsuc n) = 0
id_of (pos n) = n

-- next_hotplug_cb_handle++, from the largest int on to 1.
abbrev pub next_handle : ℕ → ℕ
next_handle h = if leb (2 ^ 31) (suc h) then 1 else suc h

module _ {F : Type 0} where
  abbrev pub new_callback : ℕ → ℤ → ℤ → ℤ → F → ℕ → Callback F
  new_callback events vendor product class f h = record {
    flags =
        flag_id class dev_class_valid
          (flag_id product product_id_valid (flag_id vendor vendor_id_valid events));
    vendor_id = id_of vendor;
    product_id = id_of product;
    dev_class = id_of class;
    cb = f;
    handle = h;
  }

  -- for (i = 0; i < len; i++) usbi_hotplug_match_cb(...), whose values are not looked at.
  unfoldable pub enumerate : Answers F → List Device → Callback F → Context F → Context F
  unfolding match_cb
  enumerate answers [] c ctx = ctx
  enumerate answers (dev ∷ devs) c ctx =
      let (remove, ctx') = match_cb answers dev arrived c ctx in enumerate answers devs c ctx'

  -- if ((flags & LIBUSB_HOTPLUG_ENUMERATE) && (events & LIBUSB_HOTPLUG_EVENT_DEVICE_ARRIVED)) { ... };
  -- `devices` is what libusb_get_device_list answers.
  unfoldable pub after_add :
      Answers F → Result (List Device) → ℕ → ℕ → Callback F → Context F → Result ℕ × Context F
  unfolding enumerate deregister_callback
  after_add answers (err x) events flags c ctx =
      if test_bit flags 0 && test_bit events 0
      then (err x, deregister_callback true c.handle ctx)
      else (ok c.handle, ctx)
  after_add answers (ok devs) events flags c ctx =
      if test_bit flags 0 && test_bit events 0
      then (ok c.handle, enumerate answers devs c ctx)
      else (ok c.handle, ctx)

  unfoldable pub register_callback :
      Answers F
      → Bool
      → Bool
      → Result (List Device)
      → ℕ
      → ℕ
      → ℤ
      → ℤ
      → ℤ
      → Option F
      → Context F
      → Result ℕ × Context F
  unfolding after_add
  register_callback answers hotplug granted devices events flags vendor product class none ctx =
      (err invalid_param, ctx)
  register_callback answers hotplug granted devices events flags vendor product class (some f) ctx =
      if events == 0
        || leb 4 events
        || leb 2 flags
        || not (is_sane vendor 65536)
        || not (is_sane product 65536)
        || not (is_sane class 256)
      then (err invalid_param, ctx)
      else if not hotplug
      then (err not_supported, ctx)
      else if not granted
      then (err no_mem, ctx)
      else (let c = new_callback events vendor product class f ctx.next_hotplug_cb_handle in
          after_add answers devices events flags c (record ctx {
            hotplug_cbs = c ∷ ctx.hotplug_cbs;
            next_hotplug_cb_handle = next_handle ctx.next_hotplug_cb_handle;
          }))
