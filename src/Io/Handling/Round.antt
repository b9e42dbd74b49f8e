-- ===== src/Io/Handling/Round.antt =====
-- The outcome of a round of `handle_events` of libusb/libusb/io.c, by what poll() answers.
use zerousb.Prelude.{
  ℕ, ◌≡◌, ◌≤◌, ◌<◌, ◌⊎◌, ◌&&◌, not, refl, sym, ap, subst, Bool, true, false, none, some, List,
  if◌then◌else◌, length, Bool-cases, inl, inr, arith,
}
use zerousb.Usb.{Error, busy, interrupted, io, no_mem, Success, success, Result, ok, err}
use zerousb.Io.Transfer.{Context}
use zerousb.Io.Lifecycle.{handle_timeouts}
use zerousb.Io.Events.{PollFd, EventData, rebuild_pollfds}
use zerousb.Io.Handling.{
  Polled, timed_out, was_interrupted, failed, ready, State, Answers, Handled, count_ready,
  internal_nfds, error_of, after_poll, polled_fds, after_rebuild, handle_events,
}
use zerousb.Io.Handling.Dispatch.{Ended, IsAsked, pipe_part-IsAsked}

-- The array for poll() is the list of the files, unless that has changed since.
abbrev pub IsPolled : EventData → Type 0
IsPolled d = d.pollfds_modified ≡ false → d.pollfds ≡ some d.ipollfds

-- The array must be made anew, and there is no memory for it.
abbrev pub lacks_memory : Bool → EventData → Bool
lacks_memory granted d = d.pollfds_modified && not granted

rebuild_pollfds-polled :
    (granted : Bool) (d : EventData)
    → IsPolled d
    → ((rebuild_pollfds granted d).0 ≡ err no_mem) × (lacks_memory granted d ≡ true)
      ⊎ ((rebuild_pollfds granted d).0 ≡ ok success)
        × (polled_fds (rebuild_pollfds granted d).1 ≡ d.ipollfds)
        × (lacks_memory granted d ≡ false)
unfolding rebuild_pollfds
rebuild_pollfds-polled granted d v = elim (Bool-cases d.pollfds_modified) [
  | inr e ↦ rw e (inr (refl, rw (v e) refl, refl))
  | inl e ↦ elim (Bool-cases granted) [
    | inr g ↦ rw (e, g) (inl (refl, refl))
    | inl g ↦ rw (e, g) (inr (refl, ground arith, refl))
  ]
]

Error-of : (y : Error) → ◌≡◌ {A = Result Success} (err y) (err no_mem) → y ≡ no_mem
Error-of y e = cc

-- What poll() answers for files: a flag for each, and one at least is set.
abbrev pub IsAnswer : List PollFd → Polled → Type 0
IsAnswer fds (ready revents) = (length revents ≡ length fds) × (0 < count_ready revents)
IsAnswer fds other = Unit {0}

-- By what poll() answers, with the state `s` then.
abbrev pub AsPolled : Answers → ℕ → List PollFd → Polled → State → Handled → Type 0
AsPolled a n fds (ready revents) s h = IsAsked a n fds revents s h
AsPolled a n fds timed_out s h =
    let (r, t) = handle_timeouts a.clock a.cancels s.transfers in
    Ended (record s { transfers = t }) h × (h.asked ≡ none) × (h.r ≡ error_of r)
AsPolled a n fds was_interrupted s h = Ended s h × (h.asked ≡ none) × (h.r ≡ some interrupted)
AsPolled a n fds failed s h = Ended s h × (h.asked ≡ none) × (h.r ≡ some io)

-- The state with the array made, if it must be, and the thread's mark set.
abbrev pub begun : Answers → State → State
begun a s = record s { events = (rebuild_pollfds a.calloc s.events).1; handling = true }

-- A round, by whether there is memory for the array where it must be made.
abbrev pub Round : Bool → Answers → State → Handled → Type 0
Round true a s h = Ended (begun a s) h × (h.asked ≡ none) × (h.r ≡ some no_mem)
Round false a s h =
    AsPolled a (internal_nfds s) s.events.ipollfds (a.poll s.events.ipollfds) (begun a s) h

-- A round of the event handler of a thread that may handle events already.
abbrev pub IsRound : Bool → Answers → State → Handled → Type 0
IsRound true a s h = (h.r ≡ some busy) × (h.state ≡ s) × (h.asked ≡ none)
IsRound false a s h = Round (lacks_memory a.calloc s.events) a s h

after_poll-AsPolled :
    (a : Answers) (fds : List PollFd) (p : Polled) (s : State)
    → ((id : ℕ) (t : Context) → (a.complete id t).1.using_timerfd ≡ t.using_timerfd)
    → internal_nfds s ≤ length fds
    → IsAnswer fds p
    → AsPolled a (internal_nfds s) fds p s (after_poll a (internal_nfds s) fds p s)
after_poll-AsPolled a fds timed_out s k m w = (refl, refl, refl)
after_poll-AsPolled a fds was_interrupted s k m w = (refl, refl, refl)
after_poll-AsPolled a fds failed s k m w = (refl, refl, refl)
after_poll-AsPolled a fds (ready revents) s k m (w, l) =
    pipe_part-IsAsked a fds revents s k (omega arith) l

after_rebuild-Round :
    (a : Answers) (s : State)
    → ((id : ℕ) (t : Context) → (a.complete id t).1.using_timerfd ≡ t.using_timerfd)
    → internal_nfds s ≤ length s.events.ipollfds
    → IsAnswer s.events.ipollfds (a.poll s.events.ipollfds)
    → (x : Result Success)
    → ((x ≡ err no_mem) × (lacks_memory a.calloc s.events ≡ true))
      ⊎ ((x ≡ ok success)
          × (polled_fds (rebuild_pollfds a.calloc s.events).1 ≡ s.events.ipollfds)
          × (lacks_memory a.calloc s.events ≡ false))
    → Round (lacks_memory a.calloc s.events) a s (after_rebuild a (begun a s) x)
after_rebuild-Round a s k m w (err y) (inl (e, g)) = rw g (refl, refl, ap some (Error-of y e))
after_rebuild-Round a s k m w (ok y) (inl (e, g)) = absurd (cc)
after_rebuild-Round a s k m w (err y) (inr (e, p, g)) = absurd (cc)
after_rebuild-Round a s k m w (ok y) (inr (e, p, g)) = rw g (
    subst
      (λ xs.
        AsPolled a (internal_nfds s) s.events.ipollfds (a.poll s.events.ipollfds) (begun a s)
          (after_poll a (internal_nfds s) xs (a.poll xs) (begun a s)))
      (sym p)
      (after_poll-AsPolled a s.events.ipollfds (a.poll s.events.ipollfds) (begun a s) k m w))

-- A round of the event handler, where the array for poll() is up to date or marked as not, and the
-- files begin with the internal ones, the event pipe and the timer if there is one. Within another round
-- of the same thread it is refused and changes nothing. Otherwise the thread's mark is taken away again
-- whatever happens. The round is out of memory exactly where the array must be made anew and its memory
-- is refused; an interruption and a failure of poll() are told as such, and after a wait in vain the
-- timeouts are handled and their error is told. Where files have events: if the pipe has, the pending
-- completions are run up to the first that fails, and its error is told and ends the round; else, if
-- there is a timer and it has, the timeouts are handled and the timer is set anew, and an error of either
-- is told and ends the round; else the backend is asked, about all files but the internal ones and with
-- the number of those that have events, and its answer is told, unless none of them has.
pub handle_events-IsRound :
    (a : Answers) (s : State)
    → IsPolled s.events
    → internal_nfds s ≤ length s.events.ipollfds
    → IsAnswer s.events.ipollfds (a.poll s.events.ipollfds)
    → ((id : ℕ) (t : Context) → (a.complete id t).1.using_timerfd ≡ t.using_timerfd)
    → IsRound s.handling a s (handle_events a s)
unfolding handle_events
handle_events-IsRound a s v m w k = by_handling s.handling
  where
    start : Bool → Handled
    start b =
        if b
        then record { r = some busy; state = s; asked = none }
        else (let (r, e) = rebuild_pollfds a.calloc s.events in
            after_rebuild a (record s { events = e; handling = true }) r)

    by_handling : (b : Bool) → IsRound b a s (start b)
    by_handling true = (refl, refl, refl)
    by_handling false =
        after_rebuild-Round a s k m w (rebuild_pollfds a.calloc s.events).0
          (rebuild_pollfds-polled a.calloc s.events v)
