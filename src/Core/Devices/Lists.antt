-- ===== src/Core/Devices/Lists.antt =====
-- `libusb_get_device_list` of libusb/libusb/core.c and the references to devices.
use zerousb.Prelude.{
  ℕ, ◌+◌, ◌≡◌, ◌<◌, suc, zero, ◌-◌, ◌&&◌, refl, sym, ap, subst, ◌∙◌, not, Bool, true, false, Option,
  none, some, List, [], ◌∷◌, ◌++◌, length, ltb, if◌then◌else◌, arith, All, All-append, ==_iff,
}
use zerousb.Usb.{no_mem, Result, ok, err}
use zerousb.Core.Devices.{
  Context, ref_device, ref_all, unref_all, Discovered, size_step, discovered_devs_free,
  discovered_devs_append, Grants, append_all, give_out, get_device_list, free_device_list,
}
use zerousb.Core.Devices.Counts.{
  count, count-append_one, frame, Counts, unref_all-Counts, ref_all-Counts,
}

-- Whether memory is granted wherever the collection must grow: for each device that finds no room left.
abbrev pub enough : (ℕ → Bool) → ℕ → List ℕ → Bool
enough growth room [] = true
enough growth zero (x ∷ xs) = growth x && enough growth (size_step - 1) xs
enough growth (suc room) (x ∷ xs) = enough growth room xs

-- What the collection of devices comes to, with memory wherever it is needed or not: the devices, each
-- with a reference more, or nothing with the counts that there were before.
abbrev pub Collected : Bool → (ℕ → ℕ) → List ℕ → Context → Option Discovered × Context → Type 0
Collected m b ds ctx (none, c) = (m ≡ false) × Counts b ctx c
Collected m b ds ctx (some d, c) =
    (d.devices ≡ ds) × Counts (λ j. b j + count j ds) ctx c × (m ≡ true)

-- One device more, and the room that is left then.
abbrev Appended :
    (ℕ → Bool) → ℕ → ℕ → (ℕ → ℕ) → List ℕ → Context → Option Discovered × Context → Type 0
Appended growth room dev b ds ctx (none, c) =
    ((xs : List ℕ) → enough growth room (dev ∷ xs) ≡ false) × Counts b ctx c
Appended growth room dev b ds ctx (some d, c) =
    (d.devices ≡ ds)
    × Counts (λ j. b j + count j ds) ctx c
    × ((left : ℕ) × (length d.devices + left ≡ d.capacity)
        × ((xs : List ℕ) → enough growth room (dev ∷ xs) ≡ enough growth left xs))

append-assoc_one : (xs ys : List ℕ) (x : ℕ) → (xs ++ x ∷ []) ++ ys ≡ xs ++ x ∷ ys
append-assoc_one [] ys x = refl
append-assoc_one (z ∷ xs) ys x = ap (z ∷◌) (append-assoc_one xs ys x)

length-append_one : (xs : List ℕ) (x : ℕ) → length (xs ++ x ∷ []) ≡ suc (length xs)
length-append_one [] x = refl
length-append_one (y ∷ xs) x = ground (arith, length-append_one xs x)

append-Appended :
    (b : ℕ → ℕ) (growth : ℕ → Bool) (room : ℕ) (d : Discovered) (dev : ℕ) (ctx : Context)
    → length d.devices + room ≡ d.capacity
    → ((j : ℕ) → ctx.refcnt j ≡ b j + count j d.devices)
    → All (λ x. 0 < b x) d.devices
    → Appended growth room dev b
        (d.devices ++ dev ∷ [])
        ctx
        (discovered_devs_append (growth dev) d dev ctx)
unfolding discovered_devs_append discovered_devs_free ref_device
append-Appended b growth room d dev ctx k e l =
    by_room room (ltb (length d.devices) d.capacity) (growth dev) k refl refl
  where
    added : (j : ℕ) → (ref_device dev ctx).refcnt j ≡ b j + count j (d.devices ++ dev ∷ [])
    added j = ground (arith, e j, e dev, ==_iff j dev, count-append_one j dev d.devices)

    longer : length (d.devices ++ dev ∷ []) ≡ suc (length d.devices)
    longer = length-append_one d.devices dev

    by_room :
        (n : ℕ) (room g : Bool)
        → length d.devices + n ≡ d.capacity
        → ltb (length d.devices) d.capacity ≡ room
        → growth dev ≡ g
        → Appended growth n dev b (d.devices ++ dev ∷ []) ctx (
            if room
            then (some (record d { devices = d.devices ++ dev ∷ [] }), ref_device dev ctx)
            else if not g
            then (none, unref_all d.devices ctx)
            else (
              some (record { devices = d.devices ++ dev ∷ []; capacity = d.capacity + size_step }),
              ref_device dev ctx,
            ))
    by_room zero true g q r w = absurd (ground arith)
    by_room (suc n) true g q r w = (refl, (added, refl), (n, omega (arith, longer, q), λ xs. refl))
    by_room (suc n) false g q r w = absurd (ground arith)
    by_room zero false true q r w =
        (refl, (added, refl), (size_step - 1, omega (arith, longer, q), λ xs. rw w refl))
    by_room zero false false q r w = (λ xs. rw w refl, unref_all-Counts b d.devices ctx e l)

append-nil : (xs : List ℕ) → xs ++ [] ≡ xs
append-nil [] = refl
append-nil (x ∷ xs) = ap (x ∷◌) (append-nil xs)

Collected-frame :
    (m : Bool) (b : ℕ → ℕ) (ds : List ℕ) (ctx c : Context) (r : Option Discovered × Context)
    → frame c ≡ frame ctx
    → Collected m b ds c r
    → Collected m b ds ctx r
Collected-frame m b ds ctx c (none, c') e (w, p) = (w, (p.0, p.1 ∙ e))
Collected-frame m b ds ctx c (some d, c') e (o, p, q) = (o, (p.0, p.1 ∙ e), q)

append_all-Collected :
    (b : ℕ → ℕ) (growth : ℕ → Bool) (room : ℕ) (devs : List ℕ) (d : Discovered) (ctx : Context)
    → length d.devices + room ≡ d.capacity
    → ((j : ℕ) → ctx.refcnt j ≡ b j + count j d.devices)
    → All (λ x. 0 < b x) d.devices
    → All (λ x. 0 < b x) devs
    → Collected (enough growth room devs) b (d.devices ++ devs) ctx (append_all growth devs d ctx)
unfolding append_all
append_all-Collected b growth room [] d ctx q e l k =
    let nil : d.devices ++ [] ≡ d.devices = append-nil d.devices in rw nil (refl, (e, refl), refl)
append_all-Collected b growth room (dev ∷ devs) d ctx q e l k =
    go_on _ (append-Appended b growth room d dev ctx q e l) (λ d' c n w f.
      append_all-Collected b growth n devs d' c w f.1.0
        (subst (All (λ x. 0 < b x)) (sym f.0) (All-append _ d.devices (dev ∷ []) l (k.0, tt))) k.1)
  where
    go_on :
        (r : Option Discovered × Context)
        → Appended growth room dev b (d.devices ++ dev ∷ []) ctx r
        → ((d' : Discovered) (c : Context) (n : ℕ)
            → length d'.devices + n ≡ d'.capacity
            → (d'.devices ≡ d.devices ++ dev ∷ []) × Counts (λ j. b j + count j d'.devices) ctx c
            → Collected
                (enough growth n devs)
                b
                (d'.devices ++ devs)
                c
                (append_all growth devs d' c))
        → Collected
            (enough growth room (dev ∷ devs))
            b
            (d.devices ++ dev ∷ devs)
            ctx
            (elim r.0 [ none ↦ (none, r.1) | some d' ↦ append_all growth devs d' r.1 ])
    go_on (none, c) (w, m) p = (w devs, m)
    go_on (some d', c) (w, m, (n, o, t)) p =
        let r = p d' c n o (
          subst (λ ds. (ds ≡ d.devices ++ dev ∷ []) × Counts (λ j. b j + count j ds) ctx c) (sym w)
            (refl, m)) in
        Collected-frame _ b _ ctx c _ m.1 (
          subst (λ x. Collected x b (d.devices ++ dev ∷ devs) c (append_all growth devs d' c))
            (sym (t devs))
            (subst (λ ds. Collected (enough growth n devs) b ds c (append_all growth devs d' c))
              (ap (◌++ devs) w ∙ append-assoc_one d.devices devs dev) r))

-- Whether each allocation that the call needs is granted.
abbrev pub has_memory : Grants → List ℕ → Bool
has_memory g devs = g.first && enough g.growth size_step devs && g.answer

-- What the user is given, and the references that are held then.
abbrev pub Given : Grants → Context → Result (List ℕ) × Context → Type 0
Given g ctx (err x, c) =
    (x ≡ no_mem) × (has_memory g ctx.usb_devs ≡ false) × Counts ctx.refcnt ctx c
Given g ctx (ok list, c) =
    (list ≡ ctx.usb_devs)
    × Counts (λ j. ctx.refcnt j + count j list) ctx c
    × (has_memory g ctx.usb_devs ≡ true)

All-add :
    (b : ℕ → ℕ) (xs : List ℕ) (k : ℕ → ℕ) → All (λ x. 0 < b x) xs → All (λ x. 0 < b x + k x) xs
All-add b [] k l = tt
All-add b (x ∷ xs) k l = (omega (arith, l.0), All-add b xs k l.1)

give_out-Given :
    (g : Grants) (d : Discovered) (ctx c : Context)
    → g.first && enough g.growth size_step ctx.usb_devs ≡ true
    → d.devices ≡ ctx.usb_devs
    → Counts (λ j. ctx.refcnt j + count j d.devices) ctx c
    → All (λ x. 0 < ctx.refcnt x) d.devices
    → Given g ctx (give_out g.answer d c)
unfolding give_out discovered_devs_free
give_out-Given g d ctx c m e (p, q) l = by_answer g.answer refl
  where
    by_answer :
        (b : Bool)
        → g.answer ≡ b
        → Given g ctx (
            if not b
            then (err no_mem, unref_all d.devices c)
            else (ok d.devices, unref_all d.devices (ref_all d.devices c)))
    by_answer true r =
        let (a, o) = ref_all-Counts (λ j. ctx.refcnt j + count j d.devices) d.devices c p in
        let (u, v) =
          unref_all-Counts (λ j. ctx.refcnt j + count j d.devices) d.devices (ref_all d.devices c) a
            (All-add ctx.refcnt d.devices (λ j. count j d.devices) l) in
        (e, (u, v ∙ o ∙ q), ground (arith, m, r))
    by_answer false r =
        let (u, v) = unref_all-Counts ctx.refcnt d.devices c p l in
        (refl, ground (arith, m, r), (u, v ∙ q))

-- `libusb_get_device_list`, where each known device has a reference, gives out the known devices in
-- their order, with one more reference to each for the list and with all other references unchanged;
-- exactly where an allocation that it needs is refused (the first, that for the list, or a growth for a
-- device that finds no room left), it answers so, and every count is what it was. No device is freed.
pub get_device_list-Given :
    (g : Grants) (ctx : Context)
    → All (λ x. 0 < ctx.refcnt x) ctx.usb_devs
    → Given g ctx (get_device_list g ctx)
unfolding get_device_list
get_device_list-Given g ctx l = by_first g.first refl
  where
    collected : Option Discovered × Context
    collected = append_all g.growth ctx.usb_devs (record { devices = []; capacity = size_step }) ctx

    by_collected :
        (r : Option Discovered × Context)
        → g.first ≡ true
        → Collected (enough g.growth size_step ctx.usb_devs) ctx.refcnt ctx.usb_devs ctx r
        → Given g ctx (elim r.0 [ none ↦ (err no_mem, r.1) | some d ↦ give_out g.answer d r.1 ])
    by_collected (none, c) f (w, m) = (refl, ground (arith, f, w), m)
    by_collected (some d, c) f (e, m, w) =
        give_out-Given g d ctx c (ground (arith, f, w)) e
          (subst (λ ds. Counts (λ j. ctx.refcnt j + count j ds) ctx c) (sym e) m)
          (subst (All (λ x. 0 < ctx.refcnt x)) (sym e) l)

    by_first :
        (b : Bool)
        → g.first ≡ b
        → Given g ctx (
            if not b then (err no_mem, ctx) else (elim collected.0 [
              | none ↦ (err no_mem, collected.1)
              | some d ↦ give_out g.answer d collected.1
            ]))
    by_first true e = by_collected collected e (
        append_all-Collected ctx.refcnt g.growth size_step ctx.usb_devs
          (record { devices = []; capacity = size_step }) ctx refl (λ j. omega arith) tt l)
    by_first false e = (refl, ground (arith, e), ((λ j. refl), refl))

-- `libusb_free_device_list` with `unref_devices` gives back the references that a successful
-- `libusb_get_device_list` took: every count is what it was before, and no device is freed, where each
-- known device had a reference.
pub free_device_list-get_device_list :
    (g : Grants) (ctx : Context) (list : List ℕ)
    → All (λ x. 0 < ctx.refcnt x) ctx.usb_devs
    → (get_device_list g ctx).0 ≡ ok list
    → Counts ctx.refcnt ctx (free_device_list true list (get_device_list g ctx).1)
unfolding free_device_list
free_device_list-get_device_list g ctx list l e =
    by_given (get_device_list g ctx) (get_device_list-Given g ctx l) e
  where
    by_given :
        (r : Result (List ℕ) × Context)
        → Given g ctx r
        → r.0 ≡ ok list
        → Counts ctx.refcnt ctx (unref_all list r.1)
    by_given (err x, c) m e = cc
    by_given (ok ds, c) (m, (p, q), w) e =
        let same : ds ≡ list = cc in
        let (u, v) =
          unref_all-Counts ctx.refcnt list c
            (subst (λ xs. (j : ℕ) → c.refcnt j ≡ ctx.refcnt j + count j xs) same p)
            (subst (All (λ x. 0 < ctx.refcnt x)) (sym m ∙ same) l) in
        (u, v ∙ q)
