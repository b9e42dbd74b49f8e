-- ===== src/Hotplug/RoundTrip.antt =====
-- A callback of libusb/libusb/hotplug.c is registered, deregistered and freed.
use zerousb.Prelude.{
  ℕ, ◌≡◌, ◌≢◌, ◌≤◌, ◌<◌, refl, ◌∙◌, ap, inl, inr, ℤ, true, false, ◌==◌, leb, Bool-cases, some, List,
  ◌∷◌, All, test_bit, set_bit, arith,
}
use zerousb.Usb.{Result, ok, err}
use zerousb.Hotplug.{
  Device, Callback, Context, Answers, mark_handle, deregister_callback, keep_unmarked,
  hotplug_deregister, pending_events,
}
use zerousb.Hotplug.Register.{is_sane, next_handle, new_callback, after_add, register_callback}
use zerousb.Hotplug.Registry.{is_marked-mark, mark_handle-absent, signal_unless-cbs}

module _ {F : Type 0} where
  keep_unmarked-registered :
      (c : Callback F) (cs : List (Callback F))
      → All (λ d. d.handle ≢ c.handle) cs
      → keep_unmarked (mark_handle c.handle (c ∷ cs)).1 ≡ keep_unmarked cs
  unfolding mark_handle
  keep_unmarked-registered c cs a =
      let e : (c.handle == c.handle) ≡ true = ground arith in
      rw (e, is_marked-mark c, mark_handle-absent c.handle cs a) refl

  deregister_callback-cbs :
      (h : ℕ) (ctx : Context F)
      → (deregister_callback true h ctx).hotplug_cbs ≡ (mark_handle h ctx.hotplug_cbs).1
  unfolding deregister_callback
  deregister_callback-cbs h ctx = elim (Bool-cases (mark_handle h ctx.hotplug_cbs).0) [
    | inr p ↦ rw p refl
    | inl p ↦ rw p (
        signal_unless-cbs
          (pending_events (record ctx { hotplug_cbs = (mark_handle h ctx.hotplug_cbs).1 }))
          (record ctx {
            hotplug_cbs = (mark_handle h ctx.hotplug_cbs).1;
            event_flags = set_bit ctx.event_flags 2;
          }))
  ]

  after_add-plain :
      (answers : Answers F) (devices : Result (List Device)) (events : ℕ) (c : Callback F)
      (ctx : Context F)
      → after_add answers devices events 0 c ctx ≡ (ok c.handle, ctx)
  unfolding after_add test_bit
  after_add-plain answers (ok devs) events c ctx = refl
  after_add-plain answers (err x) events c ctx = refl

  register_callback_lem :
      (answers : Answers F) (devices : Result (List Device)) (events : ℕ) (vendor product class : ℤ)
      (f : F) (ctx : Context F)
      → 1 ≤ events
      → events < 4
      → is_sane vendor 65536 ≡ true
      → is_sane product 65536 ≡ true
      → is_sane class 256 ≡ true
      → register_callback answers true true devices events 0 vendor product class (some f) ctx ≡ (
        ok ctx.next_hotplug_cb_handle,
        record ctx {
          hotplug_cbs =
              new_callback events vendor product class f ctx.next_hotplug_cb_handle
              ∷ ctx.hotplug_cbs;
          next_hotplug_cb_handle = next_handle ctx.next_hotplug_cb_handle;
        },
      )
  unfolding register_callback
  register_callback_lem answers devices events vendor product class f ctx l u v p k =
      let s0 : (events == 0) ≡ false = ground arith in
      let s1 : leb 4 events ≡ false = ground arith in
      let c = new_callback events vendor product class f ctx.next_hotplug_cb_handle in
      rw (s0, s1, v, p, k)
        (after_add-plain answers devices events c (record ctx {
          hotplug_cbs = c ∷ ctx.hotplug_cbs;
          next_hotplug_cb_handle = next_handle ctx.next_hotplug_cb_handle;
        }))

  -- With hotplug support and memory, sane arguments, a function and no LIBUSB_HOTPLUG_ENUMERATE, the
  -- registration answers the context's next handle; if no callback has that handle, deregistering it
  -- and freeing what is marked leaves the callbacks that were there before and not marked.
  pub register_callback-deregister_callback :
      (answers : Answers F) (devices : Result (List Device)) (events : ℕ) (vendor product class : ℤ)
      (f : F) (ctx : Context F)
      → 1 ≤ events
      → events < 4
      → is_sane vendor 65536 ≡ true
      → is_sane product 65536 ≡ true
      → is_sane class 256 ≡ true
      → All (λ c. c.handle ≢ ctx.next_hotplug_cb_handle) ctx.hotplug_cbs
      → (let (r, ctx') =
            register_callback answers true true devices events 0 vendor product class
              (some f)
              ctx in
          (r ≡ ok ctx.next_hotplug_cb_handle)
          × ((hotplug_deregister false
                (deregister_callback true ctx.next_hotplug_cb_handle ctx')).hotplug_cbs
              ≡ keep_unmarked ctx.hotplug_cbs))
  unfolding hotplug_deregister
  register_callback-deregister_callback answers devices events vendor product class f ctx l u v p k
        a =
      let c = new_callback events vendor product class f ctx.next_hotplug_cb_handle in
      rw (register_callback_lem answers devices events vendor product class f ctx l u v p k) (
        refl,
        ap keep_unmarked (
              deregister_callback-cbs c.handle (record ctx {
                hotplug_cbs = c ∷ ctx.hotplug_cbs;
                next_hotplug_cb_handle = next_handle ctx.next_hotplug_cb_handle;
              }))
            ∙ keep_unmarked-registered c ctx.hotplug_cbs a,
      )
