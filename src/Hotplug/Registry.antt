-- ===== src/Hotplug/Registry.antt =====
-- What deregistering and matching in libusb/libusb/hotplug.c do to the callbacks of a
-- context.
use zerousb.Prelude.{
  ℕ, ◌≡◌, ◌≢◌, refl, sym, subst, ◌∙◌, ap, ◌⊎◌, inl, inr, Bool, true, false, ◌==◌, if◌then◌else◌,
  Bool-cases, Option-cases, some, List, [], ◌∷◌, All, set_bit, test_bit-set_bit_self, arith,
}
use mathlib.Core.Option.{some-injective, none-ne-some}
use zerousb.Hotplug.{
  Event, Device, Callback, Context, Answers, is_marked, mark, mark_handle, deregister_callback,
  deregister_all, match_cb, matches, find_handle, delete_handle, match_entry, match_loop,
  hotplug_match, handles, signal_unless, pending_events,
}

module _ {F : Type 0} where
  pub is_marked-mark : (c : Callback F) → is_marked (mark c) ≡ true
  is_marked-mark c = test_bit-set_bit_self c.flags 6

  pub mark_handle-absent :
      (h : ℕ) (cs : List (Callback F)) → All (λ c. c.handle ≢ h) cs → mark_handle h cs ≡ (false, cs)
  unfolding mark_handle
  mark_handle-absent h [] a = refl
  mark_handle-absent h (c ∷ cs) a =
      let e : (c.handle == h) ≡ false = ground arith in rw (e, mark_handle-absent h cs a.1) refl

  -- The first callback with the handle, if there is one, is marked.
  abbrev pub marked_at : ℕ → List (Callback F) → Bool
  marked_at h [] = false
  marked_at h (c ∷ cs) = let rest = marked_at h cs in if c.handle == h then is_marked c else rest

  marked_at-mark_handle :
      (h g : ℕ) (cs : List (Callback F))
      → marked_at h cs ≡ true
      → marked_at h (mark_handle g cs).1 ≡ true
  unfolding mark_handle
  marked_at-mark_handle h g [] m = m
  marked_at-mark_handle h g (d ∷ cs) m =
      let ih = marked_at-mark_handle h g cs in
      elim (Bool-cases (d.handle == g)) [
        | inl p ↦ elim (Bool-cases (d.handle == h)) [
          | inl q ↦ rw (p, q) (is_marked-mark d)
          | inr q ↦ rw (p, q) (ih (rw q at m))
        ]
        | inr p ↦ elim (Bool-cases (d.handle == h)) [
          | inl q ↦ rw (p, q) (rw q at m)
          | inr q ↦ rw (p, q) (ih (rw q at m))
        ]
      ]

  marked_at-delete_handle :
      (h g : ℕ) (cs : List (Callback F))
      → h ≢ g
      → marked_at h cs ≡ true
      → marked_at h (delete_handle g cs) ≡ true
  marked_at-delete_handle h g [] n m = m
  marked_at-delete_handle h g (d ∷ cs) n m =
      let ih = marked_at-delete_handle h g cs n in
      elim (Bool-cases (d.handle == g)) [
        | inl p ↦ let q : (d.handle == h) ≡ false = ground arith in rw p (ih (rw q at m))
        | inr p ↦ elim (Bool-cases (d.handle == h)) [
          | inl q ↦ rw (p, q) (rw q at m)
          | inr q ↦ rw (p, q) (ih (rw q at m))
        ]
      ]

  -- What is found under a marked handle is marked.
  find_handle-marked :
      (h : ℕ) (cs : List (Callback F)) (c : Callback F)
      → marked_at h cs ≡ true
      → find_handle h cs ≡ some c
      → is_marked c ≡ true
  find_handle-marked h [] c m e = absurd (none-ne-some c e)
  find_handle-marked h (d ∷ cs) c m e = elim (Bool-cases (d.handle == h)) [
    | inl q ↦ subst (λ x. is_marked x ≡ true) (some-injective d c (rw q at e)) (rw q at m)
    | inr q ↦ find_handle-marked h cs c (rw q at m) (rw q at e)
  ]

  find_handle-handle :
      (h : ℕ) (cs : List (Callback F)) (c : Callback F) → find_handle h cs ≡ some c → c.handle ≡ h
  find_handle-handle h [] c e = absurd (none-ne-some c e)
  find_handle-handle h (d ∷ cs) c e = elim (Bool-cases (d.handle == h)) [
    | inl q ↦
        let k : d.handle ≡ h = ground arith in
        ap (λ x. x.handle) (sym (some-injective d c (rw q at e))) ∙ k
    | inr q ↦ find_handle-handle h cs c (rw q at e)
  ]

  pub signal_unless-cbs :
      (pending : Bool) (ctx : Context F) → (signal_unless pending ctx).hotplug_cbs ≡ ctx.hotplug_cbs
  signal_unless-cbs true ctx = refl
  signal_unless-cbs false ctx = refl

  deregister_callback-marked :
      (h g : ℕ) (ctx : Context F)
      → marked_at h ctx.hotplug_cbs ≡ true
      → marked_at h (deregister_callback true g ctx).hotplug_cbs ≡ true
  unfolding deregister_callback
  deregister_callback-marked h g ctx m =
      let k = marked_at-mark_handle h g ctx.hotplug_cbs m in
      elim (Bool-cases (mark_handle g ctx.hotplug_cbs).0) [
        | inr p ↦ rw p k
        | inl p ↦
            rw
              (
                p,
                signal_unless-cbs
                    (pending_events
                      (record ctx { hotplug_cbs = (mark_handle g ctx.hotplug_cbs).1 }))
                    (record ctx {
                      hotplug_cbs = (mark_handle g ctx.hotplug_cbs).1;
                      event_flags = set_bit ctx.event_flags 2;
                    }),
              )
              k
      ]

  deregister_all-marked :
      (h : ℕ) (gs : List ℕ) (ctx : Context F)
      → marked_at h ctx.hotplug_cbs ≡ true
      → marked_at h (deregister_all gs ctx).hotplug_cbs ≡ true
  unfolding deregister_all
  deregister_all-marked h [] ctx m = m
  deregister_all-marked h (g ∷ gs) ctx m =
      deregister_all-marked h gs (deregister_callback true g ctx)
        (deregister_callback-marked h g ctx m)

  match_cb-marked :
      (answers : Answers F) (dev : Device) (event : Event) (c : Callback F) (h : ℕ)
      (ctx : Context F)
      → marked_at h ctx.hotplug_cbs ≡ true
      → marked_at h (match_cb answers dev event c ctx).1.hotplug_cbs ≡ true
  unfolding match_cb
  match_cb-marked answers dev event c h ctx m = elim (Bool-cases (matches c dev event)) [
    | inl p ↦ rw p (deregister_all-marked h (answers c.cb dev event).1 ctx m)
    | inr p ↦ rw p m
  ]

  match_entry-marked :
      (answers : Answers F) (dev : Device) (event : Event) (c : Callback F) (h : ℕ)
      (ctx : Context F)
      → marked_at h ctx.hotplug_cbs ≡ true
      → (is_marked c ≡ true) ⊎ (h ≢ c.handle)
      → marked_at h (match_entry answers dev event c ctx).hotplug_cbs ≡ true
  unfolding match_entry
  match_entry-marked answers dev event c h ctx m k =
      let after = match_cb-marked answers dev event c h ctx m in
      let cbs = (match_cb answers dev event c ctx).1.hotplug_cbs in
      elim (Bool-cases (is_marked c)) [
        | inl p ↦ rw p m
        | inr p ↦ elim (Bool-cases (match_cb answers dev event c ctx).0) [
          | inr q ↦ rw (p, q) after
          | inl q ↦ elim k [
            | inl y ↦ cc
            | inr n ↦ rw (p, q) (marked_at-delete_handle h c.handle cbs n after)
          ]
        ]
      ]

  match_loop-marked :
      (answers : Answers F) (dev : Device) (event : Event) (hs : List ℕ) (h : ℕ) (ctx : Context F)
      → marked_at h ctx.hotplug_cbs ≡ true
      → marked_at h (match_loop answers dev event hs ctx).hotplug_cbs ≡ true
  unfolding match_loop
  match_loop-marked answers dev event [] h ctx m = m
  match_loop-marked answers dev event (g ∷ hs) h ctx m =
      elim (Option-cases (find_handle g ctx.hotplug_cbs)) [
        | inl e ↦ rw (e, match_loop) (match_loop-marked answers dev event hs h ctx m)
        | inr (c, e) ↦
            let k : c.handle ≡ g = find_handle-handle g ctx.hotplug_cbs c e in
            let after =
              match_loop-marked answers dev event hs h (match_entry answers dev event c ctx) in
            rw (e, match_loop)
              (after (
                match_entry-marked answers dev event c h ctx m (elim (Bool-cases (h == g)) [
                  | inl q ↦
                      let j : h ≡ g = ground arith in
                      inl (find_handle-marked h ctx.hotplug_cbs c m (rw j e))
                  | inr q ↦ inr (ground arith)
                ])))
      ]

  -- A callback that is deregistered, but not freed yet, is still among the callbacks and marked after
  -- any event, whatever the callbacks that are called answer and deregister: no match frees it.
  pub hotplug_match-marked :
      (answers : Answers F) (dev : Device) (event : Event) (h : ℕ) (ctx : Context F)
      → marked_at h ctx.hotplug_cbs ≡ true
      → marked_at h (hotplug_match answers dev event ctx).hotplug_cbs ≡ true
  unfolding hotplug_match
  hotplug_match-marked answers dev event h ctx m =
      match_loop-marked answers dev event (handles ctx.hotplug_cbs) h ctx m
