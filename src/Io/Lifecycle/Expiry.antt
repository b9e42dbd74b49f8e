-- ===== src/Io/Lifecycle/Expiry.antt =====
-- `handle_timeout` of libusb/libusb/io.c, of one transfer whose deadline has passed.
use zerousb.Prelude.{
  ℕ, ◌≡◌, refl, ◌∙◌, ◌&&◌, if◌then◌else◌, not, Bool, true, false, ◌||◌, ◌==◌, arith, ==_iff,
}
use zerousb.Usb.{no_device, Result, ok, err}
use zerousb.Io.Time.{TimeVal, is_set, is_later}
use zerousb.Io.Transfer.{Transfer, Context, modify}
use zerousb.Io.Lifecycle.{cancel_transfer, handle_timeout}
use zerousb.Io.Lifecycle.Invariant.{IsValid, modify-IsValid}
use zerousb.Io.Lifecycle.Complete.{cancel_transfer-IsValid}

-- The deadline of a transfer needs no action (any more) at the time `now`.
abbrev pub is_settled : TimeVal → Transfer → Bool
is_settled now t =
    (t.timeout_handled || t.os_handles_timeout) || not (is_set t.timeout) || is_later t.timeout now

-- What an answer of the backend to a cancellation says.
abbrev pub is_granted : Result (Unit {0}) → Bool
is_granted (ok u) = true
is_granted (err x) = false

abbrev pub is_lost : Result (Unit {0}) → Bool
is_lost (err no_device) = true
is_lost r = false

-- A transfer that timed out: it is marked as handled; if it is in flight and nobody has cancelled it
-- yet, it is being cancelled now, and it has timed out exactly if the backend grants that, and has lost
-- its device if the backend says so.
abbrev pub acted : Result (Unit {0}) → Transfer → Transfer
acted answer t =
    let asked = t.in_flight && not t.cancelling in
    record t {
      timeout_handled = true;
      cancelling = t.cancelling || t.in_flight;
      has_timed_out = t.has_timed_out || asked && is_granted answer;
      device_disappeared = t.device_disappeared || asked && is_lost answer;
    }

-- What becomes of a listed transfer at the time `now`.
abbrev pub expired : TimeVal → Result (Unit {0}) → Transfer → Transfer
expired now answer t = if is_settled now t then t else acted answer t

cancel-elsewhere :
    (answer : Result (Unit {0})) (id : ℕ) (ctx : Context) (j : ℕ)
    → (j == id) ≡ false
    → (cancel_transfer answer id ctx).1.store j ≡ ctx.store j
unfolding cancel_transfer
cancel-elsewhere (ok u) id ctx j e = ground arith
cancel-elsewhere (err x) id ctx j e = ground arith

cancel-flying :
    (answer : Result (Unit {0})) (id : ℕ) (ctx : Context)
    → (cancel_transfer answer id ctx).1.flying ≡ ctx.flying
unfolding cancel_transfer
cancel-flying (ok u) id ctx = ground arith
cancel-flying (err x) id ctx = ground arith

mark : Transfer → Transfer
mark t = record t { timeout_handled = true }

-- What `handle_timeout` does: it marks the transfer, and touches no other and not the list.
pub record Handled (answer : Result (Unit {0})) (id : ℕ) (before after : Context) : Type 0 where
  pub valid : IsValid before → IsValid after
  pub elsewhere : (j : ℕ) → (j == id) ≡ false → after.store j ≡ before.store j
  pub acts : after.store id ≡ acted answer (before.store id)
  pub flying_lem : after.flying ≡ before.flying

handle_timeout-acted :
    (answer : Result (Unit {0})) (id : ℕ) (ctx : Context)
    → (handle_timeout answer id ctx).store id ≡ acted answer (ctx.store id)
unfolding handle_timeout cancel_transfer
handle_timeout-acted (ok u) id ctx = ground (arith, (==_iff id id).1 refl)
handle_timeout-acted (err x) id ctx = ground (arith, (==_iff id id).1 refl)

pub handle_timeout-Handled :
    (answer : Result (Unit {0})) (id : ℕ) (ctx : Context)
    → Handled answer id ctx (handle_timeout answer id ctx)
unfolding handle_timeout mark
handle_timeout-Handled answer id ctx =
    by_result (cancel_transfer answer id c).0 (handle_timeout-acted answer id ctx)
  where
    c : Context
    c = modify id mark ctx

    d : Context
    d = (cancel_transfer answer id c).1

    after : Result (Unit {0}) → Context
    after r = elim r [ ok u ↦ modify id (λ t. record t { has_timed_out = true }) d | err x ↦ d ]

    by_result :
        (r : Result (Unit {0}))
        → (after r).store id ≡ acted answer (ctx.store id)
        → Handled answer id ctx (after r)
    by_result (err x) e = record {
      valid = λ v. cancel_transfer-IsValid answer id c (modify-IsValid id mark ctx refl refl v);
      elsewhere = λ j e. cancel-elsewhere answer id c j e ∙ rw e refl;
      acts = e;
      flying_lem = cancel-flying answer id c;
    }
    by_result (ok u) e = record {
      valid = λ v.
          modify-IsValid id (λ t. record t { has_timed_out = true }) d refl refl
            (cancel_transfer-IsValid answer id c (modify-IsValid id mark ctx refl refl v));
      elsewhere = λ j e. rw e (cancel-elsewhere answer id c j e ∙ rw e refl);
      acts = e;
      flying_lem = cancel-flying answer id c;
    }
