-- ===== src/Io/Handling/Stages.antt =====
-- The parts of the event pipe and of the timer in a round of `handle_events` of libusb/libusb/io.c.
use zerousb.Prelude.{
  ℕ, ◌≡◌, refl, ap, ◌∙◌, Bool, true, false, ◌&&◌, Option, none, some, List, [], ◌∷◌, if◌then◌else◌,
}
use zerousb.Usb.{Error, Result, ok, err}
use zerousb.Io.Transfer.{Context}
use zerousb.Io.Events.{EventData}
use zerousb.Io.Handling.{
  State, Answers, ready_at, take_events, complete_all, handle_timerfd_trigger, error_of,
}
use zerousb.Io.Flying.{arm_for_next_timeout}
use zerousb.Io.Lifecycle.{handle_timeouts}
use zerousb.Io.Events.{begin_take, end_take}

-- A run of completions from a list of transfers and a context: its error or none, the transfers that
-- are left, and the context then. It ends with the first error, or with none when all are through.
pub data Completes (complete : ℕ → Context → Option Error × Context)
    : List ℕ → Context → Option Error → List ℕ → Context → Type 0 where
  through : (t : Context) → Completes complete [] t none [] t
  and_then :
      {id : ℕ} {ids left : List ℕ} {t t' t'' : Context} {r : Option Error}
      → complete id t ≡ (none, t')
      → Completes complete ids t' r left t''
      → Completes complete (id ∷ ids) t r left t''
  broken_off :
      {id : ℕ} {ids : List ℕ} {t t' : Context} {x : Error}
      → complete id t ≡ (some x, t')
      → Completes complete (id ∷ ids) t (some x) ids t'

-- What comes of the event pipe, by whether it has events: the completions that were pending are run.
abbrev pub Piped : Bool → Answers → State → Option Error × State → Type 0
Piped false a s x = x ≡ (none, s)
Piped true a s (r, s') =
    let d = (begin_take s.events).1 in
    (left : List ℕ) × Completes a.complete d.completed_transfers s.transfers r left s'.transfers
    × (s'.events ≡ end_take (record d { completed_transfers = left }))
    × (s'.handling ≡ s.handling)

complete_all-Completes :
    (complete : ℕ → Context → Option Error × Context) (ids : List ℕ) (d : EventData) (t : Context)
    → let (r, e, t') = complete_all complete ids d t in
      Completes complete ids t r e.completed_transfers t'
      × (e ≡ record d { completed_transfers = e.completed_transfers })
complete_all-Completes complete [] d t = (through t, refl)
complete_all-Completes complete (id ∷ ids) d t =
    by_ret (complete id t) refl (λ t'. complete_all-Completes complete ids d t')
  where
    by_ret :
        (x : Option Error × Context)
        → complete id t ≡ x
        → ((t' : Context)
            → let (r, e, t'') = complete_all complete ids d t' in
              Completes complete ids t' r e.completed_transfers t''
              × (e ≡ record d { completed_transfers = e.completed_transfers }))
        → let (r, e, t') = (elim x.0 as (λ o. Option Error × EventData × Context) [
          | none ↦ complete_all complete ids d x.1
          | some y ↦ (some y, record d { completed_transfers = ids }, x.1)
        ]) in
          Completes complete (id ∷ ids) t r e.completed_transfers t'
          × (e ≡ record d { completed_transfers = e.completed_transfers })
    by_ret (none, t') q f = let (c, e) = f t' in (and_then q c, e)
    by_ret (some y, t') q f = (broken_off q, refl)

pub take_events-Piped : (a : Answers) (s : State) → Piped true a s (take_events a.complete s)
take_events-Piped a s =
    let d = (begin_take s.events).1 in
    let (c, e) = complete_all-Completes a.complete d.completed_transfers d s.transfers in
    (_, c, ap end_take e, refl)

-- What comes of the timer that has gone off: the timeouts are handled, and then the timer is set anew.
abbrev pub trigger_stage : Answers → State → Option Error × State
trigger_stage a s =
    let (r, t) = handle_timeouts a.clock a.cancels s.transfers in
    elim r [
      | err x ↦ (some x, record s { transfers = t })
      | ok u ↦
          let (r', t') = arm_for_next_timeout a.timer_works t in
          (error_of r', record s { transfers = t' })
    ]

pub trigger_stage_lem :
    (a : Answers) (s : State)
    → trigger_stage a s ≡ (
      error_of (handle_timerfd_trigger a s.transfers).0,
      record s { transfers = (handle_timerfd_trigger a s.transfers).1 },
    )
unfolding handle_timerfd_trigger
trigger_stage_lem a s = by_result (handle_timeouts a.clock a.cancels s.transfers)
  where
    by_result :
        (x : Result (Unit {0}) × Context)
        → (elim x.0 as (λ o. Option Error × State) [
          | err y ↦ (some y, record s { transfers = x.1 })
          | ok u ↦ (
            error_of (arm_for_next_timeout a.timer_works x.1).0,
            record s { transfers = (arm_for_next_timeout a.timer_works x.1).1 },
          )
        ])
          ≡ (
            error_of
                (elim x.0 as (λ o. Result (Unit {0}) × Context) [
                  | err y ↦ (err y, x.1)
                  | ok u ↦ arm_for_next_timeout a.timer_works x.1
                ]).0,
            record s {
              transfers =
                  (elim x.0 as (λ o. Result (Unit {0}) × Context) [
                    | err y ↦ (err y, x.1)
                    | ok u ↦ arm_for_next_timeout a.timer_works x.1
                  ]).1;
            },
          )
    by_result (err y, t) = refl
    by_result (ok u, t) = refl

-- The timer's part, if there is a timer and it has events.
abbrev pub timer_stage : Answers → List Bool → State → Option Error × State
timer_stage a revents s =
    if s.transfers.using_timerfd && ready_at 1 revents then trigger_stage a s else (none, s)

pub complete_all-using_timerfd :
    (complete : ℕ → Context → Option Error × Context) (ids : List ℕ) (d : EventData) (t : Context)
    → ((id : ℕ) (t : Context) → (complete id t).1.using_timerfd ≡ t.using_timerfd)
    → (complete_all complete ids d t).2.using_timerfd ≡ t.using_timerfd
complete_all-using_timerfd complete [] d t k = refl
complete_all-using_timerfd complete (id ∷ ids) d t k =
    by_ret (complete id t) (k id t) (λ t'. complete_all-using_timerfd complete ids d t' k)
  where
    by_ret :
        (x : Option Error × Context)
        → x.1.using_timerfd ≡ t.using_timerfd
        → ((t' : Context) → (complete_all complete ids d t').2.using_timerfd ≡ t'.using_timerfd)
        → (elim x.0 as (λ o. Option Error × EventData × Context) [
          | none ↦ complete_all complete ids d x.1
          | some y ↦ (some y, record d { completed_transfers = ids }, x.1)
        ]).2.using_timerfd
          ≡ t.using_timerfd
    by_ret (none, t') e f = f t' ∙ e
    by_ret (some y, t') e f = e
