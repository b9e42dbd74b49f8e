-- ===== src/Linux/Bulk/Early.antt =====
-- A bulk transfer of libusb/libusb/os/linux_usbfs.c that stalls: its array can be freed too early.
use zerousb.Prelude.{ℕ, ◌+◌, ◌-◌, ◌≡◌, ◌<◌, refl, ◌∙◌, ap, false, List, [], ◌∷◌, ◌++◌, ◌==◌, arith}
use zerousb.Io.Transfer.{completed, stall}
use zerousb.Linux.Bulk.Rounds.{if-true, if-false, go_on, reap_all-go_on}
use zerousb.Linux.Bulk.Submit.{normal}
use zerousb.Linux.Bulk.Reap.{
  Reaped, stalled, unlinked, Reap, waiting, handle_completion, handle_bulk_completion, reap_all,
}

-- The URBs and the transfer of the scenario.
abbrev pub stalls : Reaped → Reaped
stalls u = record u { status = stalled }

abbrev pub unlinks : Reaped → ℕ → Reaped
unlinks v n = record v { status = unlinked; idx = n - 1 }

abbrev pub under_way : Reap → Reap
under_way s = record s { priv = record s.priv { reap_action = normal; reap_status = completed } }

abbrev after_stall : Reaped → Reap → Reap
after_stall u s = record s {
  priv = record s.priv {
    reap_action = normal;
    num_retired = s.priv.num_retired + 1;
    reap_status = stall;
  };
  transferred = s.transferred + u.actual_length;
  discards = s.discards ++ (u.idx + 1, s.priv.num_urbs) ∷ [];
}

abbrev after_unlink : Reaped → Reap → Reap
after_unlink v s = record s {
  priv = record s.priv { num_retired = s.priv.num_retired + 1; urbs = false };
  transferred = s.transferred + v.actual_length;
}

stall-waits :
    (u : Reaped) (s : Reap)
    → s.priv.num_retired + 2 < s.priv.num_urbs
    → handle_bulk_completion (stalls u) (under_way s) ≡ waiting (after_stall u s)
unfolding handle_bulk_completion
stall-waits u s l = if-false (s.priv.num_retired + 1 == s.priv.num_urbs) _ _ (ground arith)

unlink-reports :
    (u v : Reaped) (s : Reap)
    → handle_bulk_completion (unlinks v s.priv.num_urbs) (after_stall u s)
      ≡ handle_completion (after_unlink v (after_stall u s)) stall
unfolding handle_bulk_completion
unlink-reports u v s = if-true (s.priv.num_urbs - 1 == s.priv.num_urbs - 1) _ _ (ground arith)

-- In a transfer that goes normally so far, an URB stalls when at least two others are outstanding, and
-- is asked back with those behind it. If the last URB of the array is given back unlinked then, before
-- the others: `handle_bulk_completion` frees the array and reports a stall, with fewer URBs retired than
-- the array has.
pub reap_all-stalled :
    (u v : Reaped) (s : Reap) (rest : List Reaped)
    → s.priv.num_retired + 2 < s.priv.num_urbs
    → (end : Reap) × (reap_all (stalls u ∷ unlinks v s.priv.num_urbs ∷ rest) (under_way s)
        ≡ (handle_completion end stall, rest))
      × (end.priv.urbs ≡ false)
      × (end.priv.num_retired < end.priv.num_urbs)
reap_all-stalled u v s rest l =
    let w = unlinks v s.priv.num_urbs in
    (
      after_unlink v (after_stall u s),
      reap_all-go_on (stalls u) (w ∷ rest) (under_way s)
          ∙ ap (go_on (w ∷ rest)) (stall-waits u s l)
          ∙ reap_all-go_on w rest (after_stall u s)
          ∙ ap (go_on rest) (unlink-reports u v s),
      refl,
      omega (arith, l),
    )
