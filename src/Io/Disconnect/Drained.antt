-- ===== src/Io/Disconnect/Drained.antt =====
-- A disconnected device has no transfer in flight in libusb/libusb/io.c.
use zerousb.Prelude.{
  ℕ, zero, suc, ◌≡◌, ◌≤◌, ◌<◌, refl, sym, ap, ◌∙◌, Bool, true, false, ◌&&◌, Option, none, some,
  List, [], ◌∷◌, if◌then◌else◌, ◌==◌, arith, Bool-cases, inl, inr, ==_iff,
}
use zerousb.Io.Transfer.{Transfer, Context, no_device}
use zerousb.Io.Flying.{delete}
use zerousb.Io.Flying.Lists.{mem}
use zerousb.Io.Lifecycle.{handle_transfer_completion}
use zerousb.Io.Lifecycle.Invariant.{IsValid}
use zerousb.Io.Lifecycle.Complete.{
  Seen, handle_transfer_completion_lem, handle_transfer_completion-IsValid,
}
use zerousb.Io.Disconnect.{to_cancel, handle_disconnect}

-- The number of listed transfers of the handle.
abbrev pub pending : ℕ → (ℕ → Transfer) → List ℕ → ℕ
pending h st [] = 0
pending h st (id ∷ ids) =
    if (st id).dev_handle == h then suc (pending h st ids) else pending h st ids

-- A callback that submits nothing more for the handle, and uses the library as it is meant to be used.
pub record IsQuiet (h : ℕ) (callback : Context → Context) : Type 0 where
  pub valid : (c : Context) → IsValid c → IsValid (callback c)
  pub no_more :
      (c : Context)
      → IsValid c
      → pending h (callback c).store (callback c).flying ≤ pending h c.store c.flying

-- No transfer of the handle is in flight any more.
abbrev pub IsDrained : ℕ → Context → Type 0
IsDrained h ctx =
    (id : ℕ) → (ctx.store id).in_flight ≡ true → ((ctx.store id).dev_handle == h) ≡ false

-- The loop has ended, in a valid context in which the handle has no transfer in flight.
abbrev pub Drains : ℕ → Option Context → Type 0
Drains h r = (done : Context) × (r ≡ some done) × IsValid done × IsDrained h done

to_cancel-some :
    (h : ℕ) (st : ℕ → Transfer) (xs : List ℕ) (id : ℕ)
    → to_cancel h st xs ≡ some id
    → ((st id).dev_handle == h ≡ true) × (mem id xs ≡ true)
unfolding to_cancel
to_cancel-some h st [] id e = cc
to_cancel-some h st (x ∷ xs) id e = elim (Bool-cases ((st x).dev_handle == h && (st x).in_flight)) [
  | inl p ↦ ground (arith)
  | inr p ↦ let (a, m) = to_cancel-some h st xs id (rw p at e) in (a, ground arith)
]

to_cancel-none :
    (h : ℕ) (st : ℕ → Transfer) (xs : List ℕ)
    → to_cancel h st xs ≡ none
    → (id : ℕ) → mem id xs ≡ true
    → (st id).in_flight ≡ true
    → ((st id).dev_handle == h) ≡ false
unfolding to_cancel
to_cancel-none h st [] e id m k = cc
to_cancel-none h st (x ∷ xs) e id m k =
    elim (Bool-cases ((st x).dev_handle == h && (st x).in_flight)) [
      | inl p ↦ ground arith
      | inr p ↦ let r = to_cancel-none h st xs (rw p at e) id in ground (arith, ==_iff x id)
    ]

pending-congr :
    (h : ℕ) (st st' : ℕ → Transfer) (xs : List ℕ)
    → ((j : ℕ) → (st' j).dev_handle ≡ (st j).dev_handle)
    → pending h st' xs ≡ pending h st xs
pending-congr h st st' [] e = refl
pending-congr h st st' (x ∷ xs) e = rw (e x, pending-congr h st st' xs e) refl

pending-delete :
    (h : ℕ) (st : ℕ → Transfer) (id : ℕ) (xs : List ℕ)
    → (st id).dev_handle == h ≡ true
    → mem id xs ≡ true
    → pending h st xs ≡ suc (pending h st (delete id xs))
unfolding delete
pending-delete h st id [] p m = cc
pending-delete h st id (x ∷ xs) p m = elim (Bool-cases (x == id)) [
  | inl q ↦ ground (arith, ==_iff x id)
  | inr q ↦ let r = pending-delete h st id xs p (rw q at m) in ground arith
]

dev_handle-Seen :
    (id : ℕ) (ctx seen : Context)
    → Seen id no_device ctx seen
    → (j : ℕ) → (seen.store j).dev_handle ≡ (ctx.store j).dev_handle
dev_handle-Seen id ctx seen s j = elim (Bool-cases (j == id)) [
  | inl e ↦ rw ((==_iff j id).0 e) (ap (λ t. t.dev_handle) s.finished)
  | inr e ↦ ap (λ t. t.dev_handle) (s.others j e)
]

-- The transfers that are ended count one less of the handle's.
round-pending :
    (works : Bool) (callback : Context → Context) (h id : ℕ) (ctx : Context)
    → IsQuiet h callback
    → IsValid ctx
    → to_cancel h ctx.store ctx.flying ≡ some id
    → (let c = (handle_transfer_completion works callback id no_device ctx).1 in
        pending h c.store c.flying < pending h ctx.store ctx.flying)
round-pending works callback h id ctx q v e =
    let (seen, p, s) = handle_transfer_completion_lem works callback id no_device ctx v in
    let (here, m) = to_cancel-some h ctx.store ctx.flying id e in
    let same : (j : ℕ) → (seen.store j).dev_handle ≡ (ctx.store j).dev_handle =
      λ j. dev_handle-Seen id ctx seen s j in
    let a = pending-congr h ctx.store seen.store seen.flying same in
    let b = pending-delete h ctx.store id ctx.flying here m in
    let c = q.no_more seen s.valid in
    let f : pending h ctx.store seen.flying ≡ pending h ctx.store (delete id ctx.flying) =
      ap (pending h ctx.store) s.flying_lem in
    rw p (omega (arith, a, b, c, f))

-- `usbi_handle_disconnect` ends, in at most one round more than there are transfers of the handle in
-- the list, whatever other transfers there are, and leaves a valid context in which no transfer of the
-- handle is in flight. The context was valid, and no callback submits a transfer for the handle again.
pub handle_disconnect-IsDrained :
    (fuel : ℕ) (works : Bool) (callback : ℕ → Context → Context) (h : ℕ) (ctx : Context)
    → ((id : ℕ) → IsQuiet h (callback id))
    → IsValid ctx
    → pending h ctx.store ctx.flying < fuel
    → Drains h (handle_disconnect fuel works callback h ctx)
unfolding handle_disconnect
handle_disconnect-IsDrained zero works callback h ctx q v l = absurd (omega arith)
handle_disconnect-IsDrained (suc f) works callback h ctx q v l =
    by_round (to_cancel h ctx.store ctx.flying) refl (λ id e.
      let less = round-pending works (callback id) h id ctx (q id) v e in
      handle_disconnect-IsDrained f works callback h _ q
        (handle_transfer_completion-IsValid works (callback id) id no_device ctx (q id).valid v)
        (omega (arith, less)))
  where
    by_round :
        (o : Option ℕ)
        → to_cancel h ctx.store ctx.flying ≡ o
        → ((id : ℕ)
            → to_cancel h ctx.store ctx.flying ≡ some id
            → Drains h (
                handle_disconnect f works callback h
                  (handle_transfer_completion works (callback id) id no_device ctx).1))
        → Drains h (elim o [
          | none ↦ some ctx
          | some id ↦
              handle_disconnect f works callback h
                (handle_transfer_completion works (callback id) id no_device ctx).1
        ])
    by_round none e k =
        (ctx, refl, v, λ id i. to_cancel-none h ctx.store ctx.flying e id (sym (v.listed id) ∙ i) i)
    by_round (some id) e k = k id e
