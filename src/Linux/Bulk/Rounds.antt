-- ===== src/Linux/Bulk/Rounds.antt =====
-- One URB after the other is given back in libusb/libusb/os/linux_usbfs.c.
use zerousb.Prelude.{◌≡◌, refl, Bool, true, false, List, ◌∷◌, if◌then◌else◌}
use zerousb.Linux.Bulk.Reap.{
  Reaped, Reap, Outcome, waiting, handle_cancellation, handle_completion, handle_bulk_completion,
  reap_all,
}

pub if-true : (b : Bool) (x y : Outcome) → b ≡ true → (if b then x else y) ≡ x
if-true true x y e = refl
if-true false x y e = cc

pub if-false : (b : Bool) (x y : Outcome) → b ≡ false → (if b then x else y) ≡ y
if-false true x y e = cc
if-false false x y e = refl

-- How `reap_all` goes on.
abbrev pub go_on : List Reaped → Outcome → Outcome × List Reaped
go_on us (waiting s) = reap_all us s
go_on us (handle_cancellation s) = (handle_cancellation s, us)
go_on us (handle_completion s st) = (handle_completion s st, us)

pub reap_all-go_on :
    (u : Reaped) (us : List Reaped) (s : Reap)
    → reap_all (u ∷ us) s ≡ go_on us (handle_bulk_completion u s)
unfolding reap_all
reap_all-go_on u us s = by_outcome (handle_bulk_completion u s)
  where
    by_outcome :
        (o : Outcome)
        → (elim o as (λ x. Outcome × List Reaped) [
          | waiting s' ↦ reap_all us s'
          | handle_cancellation s' ↦ (handle_cancellation s', us)
          | handle_completion s' st ↦ (handle_completion s' st, us)
        ])
          ≡ go_on us o
    by_outcome (waiting s') = refl
    by_outcome (handle_cancellation s') = refl
    by_outcome (handle_completion s' st) = refl
