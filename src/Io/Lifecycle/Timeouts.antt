-- ===== src/Io/Lifecycle/Timeouts.antt =====
-- `handle_timeouts_locked` of libusb/libusb/io.c acts on every deadline that has passed.
use zerousb.Prelude.{
  ℕ, ◌≡◌, refl, ap, sym, subst, ◌∙◌, ◌&&◌, if◌then◌else◌, not, true, false, List, [], ◌∷◌, ◌==◌,
  arith, Bool-cases, inl, inr, ==_iff, All,
}
use zerousb.Usb.{Result, ok}
use zerousb.Io.Time.{TimeVal, is_set, is_later, timeval_of, TimeSpec}
use zerousb.Io.Transfer.{Transfer, Context, needs_no_timeout}
use zerousb.Io.Flying.Lists.{mem, Distinct}
use zerousb.Io.Flying.Sorted.{IsSorted, Before, IsSorted-congr}
use zerousb.Io.Lifecycle.{handle_timeout, handle_timeouts_loop, handle_timeouts}
use zerousb.Io.Lifecycle.Invariant.{IsValid, mem-ne}
use zerousb.Io.Lifecycle.Expiry.{is_settled, acted, expired, handle_timeout-Handled}

All-unset :
    (now a : TimeVal) (st : ℕ → Transfer) (xs : List ℕ)
    → is_set a ≡ false
    → Before st a xs
    → All (λ y. is_settled now (st y) ≡ true) xs
All-unset now a st [] h b = tt
All-unset now a st (x ∷ xs) h b = (ground arith, All-unset now a st xs h b.1)

All-later :
    (now a : TimeVal) (st : ℕ → Transfer) (xs : List ℕ)
    → is_later a now ≡ true
    → Before st a xs
    → All (λ y. is_settled now (st y) ≡ true) xs
All-later now a st [] h b = tt
All-later now a st (x ∷ xs) h b = (ground arith, All-later now a st xs h b.1)

All-mem : (P : ℕ → Type 0) (xs : List ℕ) (j : ℕ) → All P xs → mem j xs ≡ true → P j
All-mem P [] j l m = cc
All-mem P (x ∷ xs) j l m = elim (Bool-cases (j == x)) [
  | inl e ↦ subst P (sym ((==_iff j x).0 e)) l.0
  | inr e ↦ All-mem P xs j l.1 (ground arith)
]

-- The loop over `ids` keeps validity, the list and the transfers outside `ids`, and does to each in it
-- what its deadline asks for.
record Looped (answers : ℕ → Result (Unit {0})) (now : TimeVal) (ids : List ℕ)
    (before after : Context) : Type 0 where
  valid : IsValid before → IsValid after
  elsewhere : (j : ℕ) → mem j ids ≡ false → after.store j ≡ before.store j
  listed : (j : ℕ) → mem j ids ≡ true → after.store j ≡ expired now (answers j) (before.store j)
  flying_lem : after.flying ≡ before.flying

-- Where the loop stops, nothing that is left has to be acted on.
stop-Looped :
    (answers : ℕ → Result (Unit {0})) (now : TimeVal) (ids : List ℕ) (ctx : Context)
    → All (λ y. is_settled now (ctx.store y) ≡ true) ids
    → Looped answers now ids ctx ctx
stop-Looped answers now ids ctx l = record {
  valid = λ v. v;
  elsewhere = λ j e. refl;
  listed = λ j m. rw (All-mem (λ y. is_settled now (ctx.store y) ≡ true) ids j l m) refl;
  flying_lem = refl;
}

-- A transfer of the list that the loop passes over or acts on, and then the rest.
step-Looped :
    (answers : ℕ → Result (Unit {0})) (now : TimeVal) (id : ℕ) (ids : List ℕ)
    (before next after : Context)
    → mem id ids ≡ false
    → (IsValid before → IsValid next)
    → ((j : ℕ) → (j == id) ≡ false → next.store j ≡ before.store j)
    → next.store id ≡ expired now (answers id) (before.store id)
    → next.flying ≡ before.flying
    → Looped answers now ids next after
    → Looped answers now (id ∷ ids) before after
step-Looped answers now id ids before next after d v k e f l = record {
  valid = λ w. l.valid (v w);
  elsewhere = λ j m. l.elsewhere j (ground arith) ∙ k j (ground arith);
  listed = λ j m. elim (Bool-cases (j == id)) [
    | inl q ↦
        subst (λ i. after.store i ≡ expired now (answers i) (before.store i))
          (sym ((==_iff j id).0 q)) (l.elsewhere id d ∙ e)
    | inr q ↦ l.listed j (ground arith) ∙ ap (expired now (answers j)) (k j q)
  ];
  flying_lem = l.flying_lem ∙ f;
}

handle_timeouts_loop-Looped :
    (answers : ℕ → Result (Unit {0})) (now : TimeVal) (ids : List ℕ) (ctx : Context)
    → IsSorted ctx.store ids
    → Distinct ids
    → Looped answers now ids ctx (handle_timeouts_loop answers now ids ctx)
unfolding handle_timeouts_loop
handle_timeouts_loop-Looped answers now [] ctx s d = stop-Looped answers now [] ctx tt
handle_timeouts_loop-Looped answers now (id ∷ ids) ctx s d =
    elim (Bool-cases (is_set (ctx.store id).timeout)) [
      | inr p ↦ rw p (
          stop-Looped answers now (id ∷ ids) ctx
            (ground arith, All-unset now (ctx.store id).timeout ctx.store ids p s.0))
      | inl p ↦ elim (Bool-cases (needs_no_timeout (ctx.store id))) [
        | inl q ↦
            let l = handle_timeouts_loop-Looped answers now ids ctx s.1 d.1 in
            let e : is_settled now (ctx.store id) ≡ true = ground arith in
            rw (p, q)
              (step-Looped answers now id ids ctx ctx _ d.0 (λ v. v) (λ j e. refl) (rw e refl) refl
                l)
        | inr q ↦ elim (Bool-cases (is_later (ctx.store id).timeout now)) [
          | inl r ↦
              rw (p, q, r)
                (stop-Looped answers now (id ∷ ids) ctx
                  (ground arith, All-later now (ctx.store id).timeout ctx.store ids r s.0))
          | inr r ↦
              let h = handle_timeout-Handled (answers id) id ctx in
              let c = handle_timeout (answers id) id ctx in
              let e : is_settled now (ctx.store id) ≡ false = ground arith in
              let l =
                handle_timeouts_loop-Looped answers now ids c
                  (IsSorted-congr ctx.store c.store ids
                    (λ j m. ap (λ t. t.timeout) (h.elsewhere j (mem-ne id j ids d.0 m))) s.1)
                  d.1 in
              rw (p, q, r)
                (step-Looped answers now id ids ctx c _ d.0 h.valid h.elsewhere (rw e h.acts)
                  h.flying_lem l)
        ]
      ]
    ]

-- An empty list is the loop that has nothing to do.
handle_timeouts_lem :
    (now : TimeSpec) (answers : ℕ → Result (Unit {0})) (ids : List ℕ) (ctx : Context)
    → handle_timeouts (ok now) answers (record ctx { flying = ids })
      ≡ (ok tt, handle_timeouts_loop answers (timeval_of now) ids (record ctx { flying = ids }))
unfolding handle_timeouts handle_timeouts_loop
handle_timeouts_lem now answers [] ctx = refl
handle_timeouts_lem now answers (id ∷ ids) ctx = refl

-- What the handling of timeouts comes to, at the time `now`: a listed transfer whose deadline has passed
-- and that nobody acts on is acted on, every other one is as it was, and so is the list.
abbrev pub TimedOut : TimeVal → (ℕ → Result (Unit {0})) → Context → Context → Type 0
TimedOut now answers before after =
    IsValid after
    × (after.flying ≡ before.flying)
    × ((j : ℕ)
        → after.store j ≡ (
            if mem j before.flying && not (is_settled now (before.store j))
            then acted (answers j) (before.store j)
            else before.store j))

-- In a valid context, when the clock can be read, the handling of timeouts leaves a valid context and
-- the list as it was. It acts on each listed transfer whose deadline has passed and that was not acted
-- on, wherever it stands, though the loop may stop early: the transfer is marked as handled and, if
-- nobody has cancelled it, is being cancelled; it has timed out exactly if the backend grants the
-- cancellation, and has lost its device if the backend says so. Every other transfer is as it was.
pub handle_timeouts-settled :
    (now : TimeSpec) (answers : ℕ → Result (Unit {0})) (ctx : Context)
    → IsValid ctx
    → let (r, ctx') = handle_timeouts (ok now) answers ctx in
      (r ≡ ok tt) × TimedOut (timeval_of now) answers ctx ctx'
handle_timeouts-settled now answers ctx v =
    let l =
      handle_timeouts_loop-Looped answers (timeval_of now) ctx.flying ctx v.sorted v.distinct in
    rw (handle_timeouts_lem now answers ctx.flying ctx)
      (refl, (l.valid v, l.flying_lem, λ j. by_place j l))
  where
    by_place :
        (j : ℕ) {after : Context}
        → Looped answers (timeval_of now) ctx.flying ctx after
        → after.store j ≡ (
            if mem j ctx.flying && not (is_settled (timeval_of now) (ctx.store j))
            then acted (answers j) (ctx.store j)
            else ctx.store j)
    by_place j l = elim (Bool-cases (mem j ctx.flying)) [
      | inr m ↦ rw m (l.elsewhere j m)
      | inl m ↦ elim (Bool-cases (is_settled (timeval_of now) (ctx.store j))) [
        | inl q ↦ rw (m, q) (l.listed j m ∙ rw q refl)
        | inr q ↦ rw (m, q) (l.listed j m ∙ rw q refl)
      ]
    ]
