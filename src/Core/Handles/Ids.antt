-- ===== src/Core/Handles/Ids.antt =====
-- `libusb_open_device_with_vid_pid` of libusb/libusb/core.c: the list of the devices, the search, the open
-- and the release of the list together.
use zerousb.Prelude.{
  ℕ, ◌+◌, ◌≡◌, ◌<◌, refl, sym, ap, subst, ◌∙◌, true, false, ◌⊎◌, Option, none, some, List, [], ◌∷◌,
  map, inl, inr, arith, All,
}
use zerousb.Usb.{Error, Result, ok, err}
use zerousb.Core.Devices.{Context, Grants, get_device_list, free_device_list}
use zerousb.Core.Devices.Counts.{count, unref_all-Counts}
use zerousb.Core.Devices.Lists.{has_memory, Given, get_device_list-Given}
use zerousb.Core.Handles.{
  Handles, Answers, open_device, find_ids, open_found, open_listed, open_with_ids,
}
use zerousb.Core.Handles.Balance.{IsBalanced, Fails, Works, Opened, All-map, open_device-Opened}
use zerousb.Core.Handles.Find.{First, found-First, find_ids-count}

-- A new handle to the first known device with the identifiers, where there is memory for the list; or
-- no new handle, where that memory is refused, there is no such device, or the first one cannot be opened.
abbrev pub Found :
    (ℕ → ℕ) → Grants → Answers → ℕ × ℕ → (ℕ → ℕ × ℕ) → Handles → Option ℕ × Handles → Type 0
Found base g a wanted ids s (none, s') =
    IsBalanced base s'
    × (s'.open_devs ≡ s.open_devs)
    × ((has_memory g s.ctx.usb_devs ≡ false)
        ⊎ First wanted ids s.ctx.usb_devs none
        ⊎ ((d : ℕ) × First wanted ids s.ctx.usb_devs (some d)
            × ((x : Error) × Fails a (s.attached d) x)))
Found base g a wanted ids s (some h, s') =
    IsBalanced base s'
    × (s'.open_devs ≡ h ∷ s.open_devs)
    × First wanted ids s.ctx.usb_devs (some (s'.handle_dev h))
    × (s.attached (s'.handle_dev h) ≡ true)
    × (has_memory g s.ctx.usb_devs ≡ true)
    × Works a h

-- The same, in the words of the search.
abbrev Finding :
    (ℕ → ℕ) → Grants → Answers → ℕ × ℕ → (ℕ → ℕ × ℕ) → Handles → Option ℕ × Handles → Type 0
Finding base g a wanted ids s (none, s') =
    IsBalanced base s'
    × (s'.open_devs ≡ s.open_devs)
    × ((has_memory g s.ctx.usb_devs ≡ false)
        ⊎ (find_ids wanted ids s.ctx.usb_devs ≡ none)
        ⊎ ((d : ℕ) × (find_ids wanted ids s.ctx.usb_devs ≡ some d)
            × ((x : Error) × Fails a (s.attached d) x)))
Finding base g a wanted ids s (some h, s') =
    IsBalanced base s'
    × (s'.open_devs ≡ h ∷ s.open_devs)
    × (find_ids wanted ids s.ctx.usb_devs ≡ some (s'.handle_dev h))
    × (s.attached (s'.handle_dev h) ≡ true)
    × (has_memory g s.ctx.usb_devs ≡ true)
    × Works a h

Finding-Found :
    (base : ℕ → ℕ) (g : Grants) (a : Answers) (wanted : ℕ × ℕ) (ids : ℕ → ℕ × ℕ) (s : Handles)
    (r : Option ℕ × Handles)
    → Finding base g a wanted ids s r
    → Found base g a wanted ids s r
Finding-Found base g a wanted ids s (none, s') (v, o, inl m) = (v, o, inl m)
Finding-Found base g a wanted ids s (none, s') (v, o, inr (inl e)) =
    (v, o, inr (inl (found-First wanted ids s.ctx.usb_devs none e)))
Finding-Found base g a wanted ids s (none, s') (v, o, inr (inr (d, e, f))) =
    (v, o, inr (inr (d, found-First wanted ids s.ctx.usb_devs (some d) e, f)))
Finding-Found base g a wanted ids s (some h, s') (v, o, e, t, m, w) =
    (v, o, found-First wanted ids s.ctx.usb_devs (some (s'.handle_dev h)) e, t, m, w)

-- The same handles with other references.
with_refs :
    (base base' : ℕ → ℕ) (s : Handles) (ctx : Context)
    → IsBalanced base s
    → ((j : ℕ) → ctx.refcnt j ≡ base' j + count j (map s.handle_dev s.open_devs))
    → IsBalanced base' (record s { ctx = ctx })
with_refs base base' s ctx v e = record {
  refs_lem = e;
  once_lem = v.once_lem;
  memory_lem = v.memory_lem;
  transfers_lem = v.transfers_lem;
  flying_lem = v.flying_lem;
}

All-more :
    (b : ℕ → ℕ) (k : ℕ → ℕ) (xs : List ℕ) → All (λ x. 0 < b x) xs → All (λ x. 0 < b x + k x) xs
All-more b k [] l = tt
All-more b k (x ∷ xs) l = (omega (arith, l.0), All-more b k xs l.1)

-- The list's references are given back.
released :
    (base : ℕ → ℕ) (devs : List ℕ) (s : Handles)
    → All (λ x. 0 < base x) devs
    → IsBalanced (λ j. base j + count j devs) s
    → IsBalanced base (record s { ctx = free_device_list true devs s.ctx })
unfolding free_device_list
released base devs s l v =
    let held = λ (j : ℕ). count j (map s.handle_dev s.open_devs) in
    let (p, q) =
      unref_all-Counts (λ j. base j + held j) devs s.ctx (λ j. omega (arith, v.refs_lem j))
        (All-more base held devs l) in
    with_refs _ base s _ v p

open_found-Finding :
    (base : ℕ → ℕ) (g : Grants) (a : Answers) (wanted : ℕ × ℕ) (ids : ℕ → ℕ × ℕ) (devs : List ℕ)
    (s : Handles)
    → IsBalanced (λ j. base j + count j devs) s
    → All (λ x. 0 < base x) devs
    → ((h : ℕ) → a.malloc ≡ some h → count h s.open_devs ≡ 0)
    → devs ≡ s.ctx.usb_devs
    → has_memory g s.ctx.usb_devs ≡ true
    → let (o, s') = open_found a (find_ids wanted ids devs) s in
      Finding base g a wanted ids s (o, record s' { ctx = free_device_list true devs s'.ctx })
open_found-Finding base g a wanted ids devs s v l fresh u m =
    by_found (find_ids wanted ids devs) refl
  where
    ended : Option ℕ × Handles → Option ℕ × Handles
    ended (o, s') = (o, record s' { ctx = free_device_list true devs s'.ctx })

    by_answer :
        (d : ℕ) (r : Result ℕ × Handles)
        → find_ids wanted ids devs ≡ some d
        → Opened (λ j. base j + count j devs) a d s r
        → Finding base g a wanted ids s
            (ended (elim r.0 [ ok h ↦ (some h, r.1) | err x ↦ (none, r.1) ]))
    by_answer d (err x, s') e (w, o, f, c) =
        (released base devs s' l w, o, inr (inr (d, rw (← u) e, (x, c))))
    by_answer d (ok h, s') e (w, o, k, t, f, c) =
        (released base devs s' l w, o, rw (← u) (rw k e), rw k t, m, c)

    by_found :
        (o : Option ℕ)
        → find_ids wanted ids devs ≡ o
        → Finding base g a wanted ids s (ended (open_found a o s))
    by_found none e = (released base devs s l v, refl, inr (inl (rw (← u) e)))
    by_found (some d) e =
        let many : 0 < s.ctx.refcnt d =
          omega (arith, v.refs_lem d, find_ids-count wanted ids devs d e) in
        by_answer d (open_device a d s) e (open_device-Opened _ a d s v many fresh)

Finding-known :
    (base : ℕ → ℕ) (g : Grants) (a : Answers) (wanted : ℕ × ℕ) (ids : ℕ → ℕ × ℕ) (s : Handles)
    (c : Context)
    → c.usb_devs ≡ s.ctx.usb_devs
    → (r : Option ℕ × Handles) → Finding base g a wanted ids (record s { ctx = c }) r
    → Finding base g a wanted ids s r
Finding-known base g a wanted ids s c u (none, s') (v, o, m) = (v, o, rw (← u) m)
Finding-known base g a wanted ids s c u (some h, s') (v, o, k, t, m, w) =
    (v, o, rw (← u) k, t, rw (← u) m, w)

-- Where each known device has a reference besides those of its open handles: a handle is given only
-- where there is memory for the list of the devices, and it is a new one, at the address that was
-- allocated, to the first known device with the identifiers, which was attached and which the backend
-- opened. None is given only where memory for the list is refused, no known device has the identifiers,
-- or the first that has them is not attached or fails to open for want of memory, of the mutex or in the
-- backend; then the open handles are what they were. In either case the references that the list took
-- are all given back: each device has those that it had, and one for each open handle.
pub open_with_ids-Found :
    (base : ℕ → ℕ) (g : Grants) (a : Answers) (wanted : ℕ × ℕ) (ids : ℕ → ℕ × ℕ) (s : Handles)
    → IsBalanced base s
    → All (λ x. 0 < base x) s.ctx.usb_devs
    → ((h : ℕ) → a.malloc ≡ some h → count h s.open_devs ≡ 0)
    → Found base g a wanted ids s (open_with_ids g a wanted ids s)
unfolding open_with_ids
open_with_ids-Found base g a wanted ids s v l fresh =
    Finding-Found base g a wanted ids s _
      (by_list (get_device_list g s.ctx) (get_device_list-Given g s.ctx known))
  where
    known : All (λ x. 0 < s.ctx.refcnt x) s.ctx.usb_devs
    known =
        All-map (λ x. 0 < base x) (λ x. 0 < s.ctx.refcnt x) s.ctx.usb_devs
          (λ x m. omega (arith, v.refs_lem x)) l

    by_list :
        (r : Result (List ℕ) × Context)
        → Given g s.ctx r
        → Finding base g a wanted ids s (open_listed a wanted ids r s)
    by_list (err x, c) (e, w, (p, q)) =
        (with_refs base base s c v (λ j. p j ∙ v.refs_lem j), refl, inl w)
    by_list (ok devs, c) (e, (p, q), m) =
        let u : c.usb_devs ≡ s.ctx.usb_devs = ap (λ x. x.usb_devs) q in
        Finding-known base g a wanted ids s c u _ (
          open_found-Finding base g a wanted ids devs (record s { ctx = c })
            (with_refs base _ s c v (λ j. omega (arith, p j, v.refs_lem j)))
            (subst (All (λ x. 0 < base x)) (sym e) l) fresh (e ∙ sym u) (rw u m))
