-- ===== src/Linux/Bulk/Drain.antt =====
-- The reaping of a bulk transfer that did not go normally, in libusb/libusb/os/linux_usbfs.c.
use zerousb.Prelude.{
  ℕ, ◌+◌, ◌≡◌, ◌<◌, refl, ap, ◌∙◌, not, false, List, [], ◌∷◌, if◌then◌else◌, ◌==◌, ltb, arith,
  length, Bool-cases, inl, inr,
}
use zerousb.Io.Transfer.{Status}
use zerousb.Linux.Bulk.Rounds.{if-true, if-false, go_on, reap_all-go_on}
use zerousb.Linux.Bulk.Submit.{ReapAction, normal, submit_failed, cancelled, completed_early, error}
use zerousb.Linux.Bulk.Reap.{
  Reaped, Reap, Outcome, waiting, is_normal, is_completed, report_as, report, add_surplus,
  abnormal_status, reap_abnormal, retire, handle_bulk_completion, reap_all,
}

-- What the kernel transferred in all.
abbrev pub total_length : List Reaped → ℕ
total_length [] = 0
total_length (u ∷ us) = u.actual_length + total_length us

-- The status that is reported: a transfer that did not end early cannot be a success.
abbrev pub drained_status : ReapAction → Status → Status
drained_status completed_early s = s
drained_status a s = if is_completed s then Status.error else s

-- All URBs given back are looked at, and the transfer is reported after the last, with all that was
-- transferred and the array freed.
abbrev pub IsDrained : List Reaped → Reap → Outcome × List Reaped → Type 0
IsDrained us s r =
    (end : Reap) × (r ≡ (report_as s.priv.reap_action end, []))
    × (end.transferred ≡ s.transferred + total_length us)
    × (end.priv.urbs ≡ false)
    × (end.priv.reap_status ≡ drained_status s.priv.reap_action s.priv.reap_status)

add_surplus-transferred :
    (u : Reaped) (s : Reap) → (add_surplus u s).transferred ≡ s.transferred + u.actual_length
add_surplus-transferred u s = ground arith

add_surplus-priv : (u : Reaped) (s : Reap) → (add_surplus u s).priv ≡ s.priv
add_surplus-priv u s = elim (Bool-cases (ltb 0 u.actual_length)) [
  | inl p ↦ rw p refl
  | inr p ↦ rw p refl
]

-- The transfer as it is reported.
abbrev ended : ReapAction → Reap → Reap
ended a s = record s {
  priv = record s.priv { urbs = false; reap_status = drained_status a s.priv.reap_status };
}

report-ended :
    (a : ReapAction) (s : Reap)
    → s.priv.reap_action ≡ a
    → report (abnormal_status a s) ≡ report_as a (ended a s)
report-ended normal s e = ap (λ b. report_as b (ended normal s)) e
report-ended submit_failed s e = ap (λ b. report_as b (ended submit_failed s)) e
report-ended cancelled s e = ap (λ b. report_as b (ended cancelled s)) e
report-ended completed_early s e = ap (λ b. report_as b (ended completed_early s)) e
report-ended error s e = ap (λ b. report_as b (ended error s)) e

abnormal-reap :
    (u : Reaped) (s : Reap)
    → is_normal s.priv.reap_action ≡ false
    → handle_bulk_completion u s ≡ reap_abnormal u (retire s)
unfolding handle_bulk_completion
abnormal-reap u s h = if-true (not (is_normal s.priv.reap_action)) _ _ (ap not h)

last-abnormal :
    (u : Reaped) (s : Reap)
    → is_normal s.priv.reap_action ≡ false
    → s.priv.num_retired + 1 ≡ s.priv.num_urbs
    → handle_bulk_completion u s
      ≡ report_as s.priv.reap_action (ended s.priv.reap_action (add_surplus u (retire s)))
last-abnormal u s h e =
    let p = ap (λ q. q.reap_action) (add_surplus-priv u (retire s)) in
    abnormal-reap u s h
    ∙ if-true (s.priv.num_retired + 1 == s.priv.num_urbs) _ _ (ground arith)
    ∙ report-ended s.priv.reap_action (add_surplus u (retire s)) p

earlier-abnormal :
    (u : Reaped) (s : Reap)
    → is_normal s.priv.reap_action ≡ false
    → s.priv.num_retired + 1 < s.priv.num_urbs
    → handle_bulk_completion u s ≡ waiting (add_surplus u (retire s))
earlier-abnormal u s h e =
    abnormal-reap u s h ∙ if-false (s.priv.num_retired + 1 == s.priv.num_urbs) _ _ (ground arith)

go_on-report :
    (us : List Reaped) (a : ReapAction) (s : Reap) → go_on us (report_as a s) ≡ (report_as a s, us)
go_on-report us normal s = refl
go_on-report us submit_failed s = refl
go_on-report us cancelled s = refl
go_on-report us completed_early s = refl
go_on-report us error s = refl

-- Once a transfer has failed, was cancelled or came out short, and all of its URBs that are not retired
-- are given back, in whatever order and with whatever statuses and lengths: `handle_bulk_completion`
-- waits until the last of them and reports then, as a cancellation if the transfer was cancelled, and as
-- a success only if it came out short and nothing else went wrong. The bytes transferred are those
-- transferred before and those of all these URBs.
pub reap_all-IsDrained :
    (us : List Reaped) (s : Reap)
    → is_normal s.priv.reap_action ≡ false
    → 0 < length us
    → s.priv.num_retired + length us ≡ s.priv.num_urbs
    → IsDrained us s (reap_all us s)
reap_all-IsDrained [] s h z e = absurd (omega arith)
reap_all-IsDrained (u ∷ []) s h z e =
    let a = s.priv.reap_action in
    let done = add_surplus u (retire s) in
    let t = add_surplus-transferred u (retire s) in
    (
      ended a done,
      reap_all-go_on u [] s
          ∙ ap (go_on []) (last-abnormal u s h (omega (arith, e)))
          ∙ go_on-report [] a (ended a done),
      omega (arith, t),
      refl,
      ap (λ q. drained_status a q.reap_status) (add_surplus-priv u (retire s)),
    )
reap_all-IsDrained (u ∷ v ∷ us) s h z e =
    let next = add_surplus u (retire s) in
    let t = add_surplus-transferred u (retire s) in
    let p = add_surplus-priv u (retire s) in
    let r = ap (λ q. q.num_retired) p in
    let n = ap (λ q. q.num_urbs) p in
    let (end, q, b, f, st) =
      reap_all-IsDrained (v ∷ us) next (ap (λ q. is_normal q.reap_action) p ∙ h) (omega arith)
        (omega (arith, e, r, n)) in
    (
      end,
      reap_all-go_on u (v ∷ us) s
          ∙ ap (go_on (v ∷ us)) (earlier-abnormal u s h (omega (arith, e)))
          ∙ q
          ∙ ap (λ w. (report_as w.reap_action end, [])) p,
      omega (arith, b, t),
      f,
      st ∙ ap (λ w. drained_status w.reap_action w.reap_status) p,
    )
