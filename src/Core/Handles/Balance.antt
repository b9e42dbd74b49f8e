-- ===== src/Core/Handles/Balance.antt =====
-- The references that the open handles of libusb/libusb/core.c hold, and `libusb_open`.
use zerousb.Prelude.{
  ℕ, ◌+◌, ◌≡◌, ◌⊎◌, inl, inr, ◌≤◌, ◌<◌, refl, ◌∙◌, Bool, true, false, Option, none, some, List, [],
  ◌∷◌, map, arith, All,
}
use zerousb.Usb.{Error, no_device, no_mem, other, Result, ok, err}
use zerousb.Core.Devices.{Context, ref_device, unref_device, remove}
use zerousb.Core.Devices.Counts.{count, frame, unref_device-set}
use zerousb.Core.Handles.{
  Handles, Answers, set_at, free_handle, open_handle, make_handle, open_device,
}

-- Each device has the references `base`, and one for each open handle to it; a handle is open once, as
-- long as it is in memory; and each transfer in flight is listed once, and one of an open handle.
pub record IsBalanced (base : ℕ → ℕ) (s : Handles) : Type 0 where
  pub refs_lem : (j : ℕ) → s.ctx.refcnt j ≡ base j + count j (map s.handle_dev s.open_devs)
  pub once_lem : (h : ℕ) → count h s.open_devs ≤ 1
  pub memory_lem : (h : ℕ) → count h s.allocated ≡ count h s.open_devs
  pub transfers_lem : (t : ℕ) → count t s.flying ≤ 1
  pub flying_lem : All (λ t. 0 < count (s.dev_handle t) s.open_devs) s.flying

-- Why an open fails with an error: the device is not attached, memory or the mutex is refused, or the
-- backend answers that error.
abbrev pub Fails : Answers → Bool → Error → Type 0
Fails a attached x =
    ((attached ≡ false) × (x ≡ no_device))
    ⊎ ((a.malloc ≡ none) × (x ≡ no_mem))
    ⊎ ((a.mutex_init ≡ false) × (x ≡ other))
    ⊎ (a.backend_open ≡ some x)

-- Nothing makes an open of an attached device fail: there is memory, at the address, the mutex and the
-- backend's open.
abbrev pub Works : Answers → ℕ → Type 0
Works a h = (a.malloc ≡ some h) × (a.mutex_init ≡ true) × (a.backend_open ≡ none)

-- A new handle to the device, where it is attached, or the open handles that there were; no device is
-- freed in either case.
abbrev pub Opened : (ℕ → ℕ) → Answers → ℕ → Handles → Result ℕ × Handles → Type 0
Opened base a dev s (err x, s') =
    IsBalanced base s'
    × (s'.open_devs ≡ s.open_devs)
    × (frame s'.ctx ≡ frame s.ctx)
    × Fails a (s.attached dev) x
Opened base a dev s (ok h, s') =
    IsBalanced base s'
    × (s'.open_devs ≡ h ∷ s.open_devs)
    × (s'.handle_dev h ≡ dev)
    × (s.attached dev ≡ true)
    × (frame s'.ctx ≡ frame s.ctx)
    × Works a h

map-set_at : (h v : ℕ) (f : ℕ → ℕ) (xs : List ℕ) → count h xs ≡ 0 → map (set_at h v f) xs ≡ map f xs
map-set_at h v f [] z = refl
map-set_at h v f (x ∷ xs) z = ground (arith, map-set_at h v f xs)

pub All-map {ℓ} :
    {A : Type ℓ} (P Q : A → Type 0) (xs : List A) → ((x : A) → P x → Q x) → All P xs → All Q xs
All-map P Q [] f l = tt
All-map P Q (x ∷ xs) f l = (f x l.0, All-map P Q xs f l.1)

pub remove_head : (x : ℕ) (xs : List ℕ) → remove x (x ∷ xs) ≡ xs
remove_head x xs = ground arith

-- A reference taken and given back.
unref-ref :
    (dev : ℕ) (ctx : Context)
    → 0 < ctx.refcnt dev
    → ((j : ℕ) → (unref_device dev (ref_device dev ctx)).refcnt j ≡ ctx.refcnt j)
      × (frame (unref_device dev (ref_device dev ctx)) ≡ frame ctx)
unfolding ref_device
unref-ref dev ctx l =
    let e = unref_device-set dev (ref_device dev ctx) (ground arith) in
    rw e (λ j. ground arith, refl)

opened-IsBalanced :
    (base : ℕ → ℕ) (dev h : ℕ) (s : Handles)
    → IsBalanced base s
    → count h s.open_devs ≡ 0
    → IsBalanced base (record s {
      allocated = h ∷ s.allocated;
      handle_dev = set_at h dev s.handle_dev;
      ctx = ref_device dev s.ctx;
      open_devs = h ∷ s.open_devs;
    })
unfolding ref_device
opened-IsBalanced base dev h s v z = record {
  refs_lem = λ j.
      rw (map-set_at h dev s.handle_dev s.open_devs z)
        (ground (arith, v.refs_lem j, v.refs_lem dev));
  once_lem = λ k. ground (arith, v.once_lem k);
  memory_lem = λ k. ground (arith, v.memory_lem k);
  transfers_lem = v.transfers_lem;
  flying_lem =
      All-map (λ t. 0 < count (s.dev_handle t) s.open_devs)
        (λ t. 0 < count (s.dev_handle t) (h ∷ s.open_devs)) s.flying (λ t l. ground arith)
        v.flying_lem;
}

-- What was made for the handle is undone: a handle that is not open may name another device, and what is
-- counted is what it was.
undone-IsBalanced :
    (base : ℕ → ℕ) (dev h : ℕ) (ctx : Context) (s : Handles)
    → IsBalanced base s
    → count h s.open_devs ≡ 0
    → ((j : ℕ) → ctx.refcnt j ≡ s.ctx.refcnt j)
    → IsBalanced base (
        free_handle h (record s {
          allocated = h ∷ s.allocated;
          handle_dev = set_at h dev s.handle_dev;
          ctx = ctx;
        }))
undone-IsBalanced base dev h ctx s v z e = record {
  refs_lem = λ j. rw (map-set_at h dev s.handle_dev s.open_devs z) (e j ∙ v.refs_lem j);
  once_lem = v.once_lem;
  memory_lem = rw (remove_head h s.allocated) v.memory_lem;
  transfers_lem = v.transfers_lem;
  flying_lem = v.flying_lem;
}

-- An open of a device to which the caller has a reference. It gives a handle only where the device is
-- attached, the handle's memory and its mutex are granted and the backend opens the device: the handle
-- is at the address that was allocated, and the device has one reference more, for it. It gives an error
-- only where one of these fails, and then the error is the one of that failure, the backend's own where
-- it is the backend, and the references, the open handles and those in memory are what they were. No
-- device is freed.
pub open_device-Opened :
    (base : ℕ → ℕ) (a : Answers) (dev : ℕ) (s : Handles)
    → IsBalanced base s
    → 0 < s.ctx.refcnt dev
    → ((h : ℕ) → a.malloc ≡ some h → count h s.open_devs ≡ 0)
    → Opened base a dev s (open_device a dev s)
unfolding open_device ref_device
open_device-Opened base a dev s v l fresh = by_attached (s.attached dev) refl
  where
    backend :
        (h : ℕ) (o : Option Error)
        → a.malloc ≡ some h
        → a.mutex_init ≡ true
        → a.backend_open ≡ o
        → s.attached dev ≡ true
        → Opened base a dev s (
            open_handle o h dev
              (record s { allocated = h ∷ s.allocated; handle_dev = set_at h dev s.handle_dev }))
    backend h (some x) m w o e =
        let (p, q) = unref-ref dev s.ctx l in
        (undone-IsBalanced base dev h _ s v (fresh h m) p, refl, q, inr (inr (inr o)))
    backend h none m w o e =
        (opened-IsBalanced base dev h s v (fresh h m), refl, ground arith, e, refl, (m, w, o))

    by_mutex :
        (h : ℕ) (works : Bool)
        → a.malloc ≡ some h
        → a.mutex_init ≡ works
        → s.attached dev ≡ true
        → Opened base a dev s (make_handle (some h) works a.backend_open dev s)
    by_mutex h true m w e = backend h a.backend_open m w refl e
    by_mutex h false m w e = (
      undone-IsBalanced base dev h s.ctx s v (fresh h m) (λ j. refl),
      refl,
      refl,
      inr (inr (inl (w, refl))),
    )

    by_malloc :
        (o : Option ℕ)
        → a.malloc ≡ o
        → s.attached dev ≡ true
        → Opened base a dev s (make_handle o a.mutex_init a.backend_open dev s)
    by_malloc none m e = (v, refl, refl, inr (inl (m, refl)))
    by_malloc (some h) m e = by_mutex h a.mutex_init m refl e

    by_attached : (b : Bool) → s.attached dev ≡ b → Opened base a dev s (open_device a dev s)
    by_attached true e = rw e (by_malloc a.malloc refl e)
    by_attached false e = rw e (v, refl, refl, inl (e, refl))
