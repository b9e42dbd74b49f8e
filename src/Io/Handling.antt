-- ===== src/Io/Handling.antt =====
-- `handle_events` of libusb/libusb/io.c, with `handle_timerfd_trigger`: one round of the event handler
-- over what poll() reports. Not here: how long poll() waits, which is in Io/Upcoming; the hotplug
-- callbacks that run for the messages taken out; and what other threads do between the completions,
-- which is in Io/Events/Signal.
pub mod Stages
pub mod Dispatch
pub mod Round
use zerousb.Prelude.{
  ℕ, ◌+◌, ◌-◌, not, Bool, true, false, ◌&&◌, Option, none, some, List, [], ◌∷◌, if◌then◌else◌, ◌==◌,
  drop,
}
use zerousb.Usb.{Error, io, busy, interrupted, Success, Result, ok, err}
use zerousb.Io.Transfer.{Context}
use zerousb.Io.Flying.{Clock, arm_for_next_timeout}
use zerousb.Io.Lifecycle.{handle_timeouts}
use zerousb.Io.Events.{PollFd, EventData, rebuild_pollfds, begin_take, end_take}

-- What poll() answers: nothing in the time, EINTR, another error, or which files have events.
pub data Polled : Type 0 where
  timed_out was_interrupted failed : Polled
  ready : List Bool → Polled

-- `handling` is whether this thread handles events of the context (event_handling_key).
pub record State : Type 0 where
  pub events : EventData
  pub transfers : Context
  pub handling : Bool

-- What the system and the backend answer: memory for the array, poll(), the completion of a transfer,
-- the clock, the backend's cancellations, the timer, and the backend's `handle_events`.
pub record Answers : Type 0 where
  pub calloc : Bool
  pub poll : List PollFd → Polled
  pub complete : ℕ → Context → Option Error × Context
  pub clock : Clock
  pub cancels : ℕ → Result (Unit {0})
  pub timer_works : Bool
  pub backend : List PollFd → List Bool → ℕ → Option Error

-- The value returned, `none` for 0, and the files and their number that the backend was called with.
pub record Handled : Type 0 where
  pub r : Option Error
  pub state : State
  pub asked : Option (List PollFd × ℕ)

-- done: usbi_end_event_handling
abbrev pub finish : Option Error → Option (List PollFd × ℕ) → State → Handled
finish r asked s = record { r = r; state = record s { handling = false }; asked = asked }

abbrev pub error_of : Result (Unit {0}) → Option Error
error_of (ok u) = none
error_of (err x) = some x

-- poll() counts the files that have events.
abbrev pub count_ready : List Bool → ℕ
count_ready [] = 0
count_ready (b ∷ bs) = if b then count_ready bs + 1 else count_ready bs

-- fds[i].revents
abbrev pub ready_at : ℕ → List Bool → Bool
ready_at i bs = elim (drop i bs) [ [] ↦ false | b ∷ rest ↦ b ]

-- while (ret == 0 && !list_empty(&ctx->completed_transfers)), where no other thread adds to the list.
abbrev pub complete_all :
    (ℕ → Context → Option Error × Context)
    → List ℕ
    → EventData
    → Context
    → Option Error × EventData × Context
complete_all complete [] d t = (none, record d { completed_transfers = [] }, t)
complete_all complete (id ∷ ids) d t =
    let (ret, t') = complete id t in
    let rest = complete_all complete ids d t' in
    elim ret [ none ↦ rest | some x ↦ (some x, record d { completed_transfers = ids }, t') ]

-- fds[0].revents: from event_data_lock to its release.
abbrev pub take_events : (ℕ → Context → Option Error × Context) → State → Option Error × State
take_events complete s =
    let d = (begin_take s.events).1 in
    let (ret, e, t) = complete_all complete d.completed_transfers d s.transfers in
    (ret, record s { events = end_take e; transfers = t })

unfoldable pub handle_timerfd_trigger : Answers → Context → Result (Unit {0}) × Context
handle_timerfd_trigger a t =
    let (r, t') = handle_timeouts a.clock a.cancels t in
    elim r [ err x ↦ (err x, t') | ok u ↦ arm_for_next_timeout a.timer_works t' ]

abbrev pub internal_nfds : State → ℕ
internal_nfds s = if s.transfers.using_timerfd then 2 else 1

-- `n` is internal_nfds from here on.
abbrev pub backend_part : Answers → ℕ → List PollFd → List Bool → ℕ → State → Handled
backend_part a n fds revents r s =
    finish (a.backend (drop n fds) (drop n revents) r) (some (drop n fds, r)) s

abbrev pub timer_done :
    Answers → ℕ → List PollFd → List Bool → ℕ → State → Result (Unit {0}) → Handled
timer_done a n fds revents r s (err x) = finish (some x) none s
timer_done a n fds revents r s (ok u) =
    if r - 1 == 0 then finish none none s else backend_part a n fds revents (r - 1) s

abbrev pub timer_part : Answers → ℕ → List PollFd → List Bool → ℕ → State → Handled
timer_part a n fds revents r s =
    if not (s.transfers.using_timerfd && ready_at 1 revents)
    then backend_part a n fds revents r s
    else let (ret, t) = handle_timerfd_trigger a s.transfers in
      timer_done a n fds revents r (record s { transfers = t }) ret

abbrev pub pipe_done : Answers → ℕ → List PollFd → List Bool → ℕ → Option Error × State → Handled
pipe_done a n fds revents r (some x, s) = finish (some x) none s
pipe_done a n fds revents r (none, s) =
    if r - 1 == 0 then finish none none s else timer_part a n fds revents (r - 1) s

abbrev pub pipe_part : Answers → ℕ → List PollFd → List Bool → ℕ → State → Handled
pipe_part a n fds revents r s =
    if not (ready_at 0 revents)
    then timer_part a n fds revents r s
    else pipe_done a n fds revents r (take_events a.complete s)

abbrev pub after_poll : Answers → ℕ → List PollFd → Polled → State → Handled
after_poll a n fds timed_out s =
    let (r, t) = handle_timeouts a.clock a.cancels s.transfers in
    finish (error_of r) none (record s { transfers = t })
after_poll a n fds was_interrupted s = finish (some interrupted) none s
after_poll a n fds failed s = finish (some io) none s
after_poll a n fds (ready revents) s = pipe_part a n fds revents (count_ready revents) s

abbrev pub polled_fds : EventData → List PollFd
polled_fds d = elim d.pollfds [ none ↦ [] | some fds ↦ fds ]

abbrev pub after_rebuild : Answers → State → Result Success → Handled
after_rebuild a s (err x) = finish (some x) none s
after_rebuild a s (ok u) =
    let fds = polled_fds s.events in after_poll a (internal_nfds s) fds (a.poll fds) s

-- handle_events
unfoldable pub handle_events : Answers → State → Handled
unfolding handle_timerfd_trigger
handle_events a s =
    if s.handling
    then record { r = some busy; state = s; asked = none }
    else let (r, e) = rebuild_pollfds a.calloc s.events in
      after_rebuild a (record s { events = e; handling = true }) r
