-- ===== src/Io/Handling/Dispatch.antt =====
-- Which files the backend is asked about in `handle_events` of libusb/libusb/io.c.
use zerousb.Prelude.{
  subst, ℕ, ◌+◌, ◌-◌, ◌≡◌, ◌≤◌, ◌<◌, refl, sym, ap, ◌∙◌, not, Bool, true, false, ◌&&◌, Option, none,
  some, List, [], ◌∷◌, if◌then◌else◌, ◌==◌, drop, length, arith,
}
use zerousb.Usb.{Error, Result, ok, err}
use zerousb.Io.Transfer.{Context}
use zerousb.Io.Events.{PollFd}
use zerousb.Io.Handling.{
  State, Answers, Handled, count_ready, ready_at, take_events, handle_timerfd_trigger,
  internal_nfds, finish, error_of, backend_part, timer_done, timer_part, pipe_done, pipe_part,
}
use zerousb.Io.Handling.Stages.{
  Piped, take_events-Piped, trigger_stage, trigger_stage_lem, timer_stage,
  complete_all-using_timerfd,
}

-- The end in the state `s`, with the thread's mark taken away.
abbrev pub Ended : State → Handled → Type 0
Ended s h = h.state ≡ record s { handling = false }

-- The backend is asked about the files behind the first `n`, unless none of them has events, and its
-- answer is that of the round.
abbrev pub IsOwn : Bool → Answers → ℕ → List PollFd → List Bool → Handled → Type 0
IsOwn true a n fds revents h = (h.r ≡ none) × (h.asked ≡ none)
IsOwn false a n fds revents h =
    let own = drop n revents in
    (h.asked ≡ some (drop n fds, count_ready own))
    × (h.r ≡ a.backend (drop n fds) own (count_ready own))

-- An error of the timer ends the round; otherwise it is the backend's turn.
abbrev pub BehindTimer :
    Answers → ℕ → List PollFd → List Bool → Option Error × State → Handled → Type 0
BehindTimer a n fds revents (some x, s) h = Ended s h × (h.r ≡ some x) × (h.asked ≡ none)
BehindTimer a n fds revents (none, s) h =
    Ended s h × IsOwn (count_ready (drop n revents) == 0) a n fds revents h

-- An error of the pipe ends the round; otherwise it is the timer's turn.
abbrev pub BehindPipe :
    Answers → ℕ → List PollFd → List Bool → Option Error × State → Handled → Type 0
BehindPipe a n fds revents (some x, s) h = Ended s h × (h.r ≡ some x) × (h.asked ≡ none)
BehindPipe a n fds revents (none, s) h = BehindTimer a n fds revents (timer_stage a revents s) h

abbrev pub IsAsked : Answers → ℕ → List PollFd → List Bool → State → Handled → Type 0
IsAsked a n fds revents s h =
    (x : Option Error × State) × Piped (ready_at 0 revents) a s x × BehindPipe a n fds revents x h

backend_part-IsOwn :
    (a : Answers) (n : ℕ) (fds : List PollFd) (revents : List Bool) (r : ℕ) (s : State)
    → r ≡ count_ready (drop n revents)
    → 0 < r
    → IsOwn (count_ready (drop n revents) == 0) a n fds revents (backend_part a n fds revents r s)
backend_part-IsOwn a n fds revents r s e l = by_count (count_ready (drop n revents) == 0) refl
  where
    by_count :
        (b : Bool)
        → (count_ready (drop n revents) == 0) ≡ b
        → IsOwn b a n fds revents (backend_part a n fds revents r s)
    by_count true z = absurd (ground (arith, e, z))
    by_count false z = (
      ap (λ k. Option.some (drop n fds, k)) e,
      ap (λ k. a.backend (drop n fds) (drop n revents) k) e,
    )

-- Where one file more than those had events.
last_part-IsOwn :
    (a : Answers) (n : ℕ) (fds : List PollFd) (revents : List Bool) (r : ℕ) (s : State)
    → r ≡ count_ready (drop n revents) + 1
    → BehindTimer a n fds revents
        (none, s)
        (if r - 1 == 0 then finish none none s else backend_part a n fds revents (r - 1) s)
last_part-IsOwn a n fds revents r s e = by_zero (r - 1 == 0) refl
  where
    by_zero :
        (b : Bool)
        → (r - 1 == 0) ≡ b
        → BehindTimer a n fds revents
            (none, s)
            (if b then finish none none s else backend_part a n fds revents (r - 1) s)
    by_zero true z =
        let k : (count_ready (drop n revents) == 0) ≡ true = ground (arith, e, z) in
        (refl, rw k (refl, refl))
    by_zero false z =
        (refl, backend_part-IsOwn a n fds revents (r - 1) s (omega (arith, e)) (ground (arith, z)))

-- The timer's part, where `r` counts its file if that has events, and those behind it.
timer_part-BehindTimer :
    (a : Answers) (n : ℕ) (fds : List PollFd) (revents : List Bool) (r : ℕ) (s : State)
    → r ≡ (
        if s.transfers.using_timerfd && ready_at 1 revents
        then count_ready (drop n revents) + 1
        else count_ready (drop n revents))
    → 0 < r
    → BehindTimer a n fds revents (timer_stage a revents s) (timer_part a n fds revents r s)
timer_part-BehindTimer a n fds revents r s e l =
    by_timer (s.transfers.using_timerfd && ready_at 1 revents) e
  where
    trigger : Result (Unit {0}) × Context
    trigger = handle_timerfd_trigger a s.transfers

    by_trigger :
        (x : Result (Unit {0}) × Context)
        → r ≡ count_ready (drop n revents) + 1
        → BehindTimer a n fds revents
            (error_of x.0, record s { transfers = x.1 })
            (timer_done a n fds revents r (record s { transfers = x.1 }) x.0)
    by_trigger (err x, t) e = (refl, refl, refl)
    by_trigger (ok u, t) e = last_part-IsOwn a n fds revents r (record s { transfers = t }) e

    by_timer :
        (b : Bool)
        → r ≡ (if b then count_ready (drop n revents) + 1 else count_ready (drop n revents))
        → BehindTimer a n fds revents (if b then trigger_stage a s else (none, s)) (
            if not b
            then backend_part a n fds revents r s
            else timer_done a n fds revents r (record s { transfers = trigger.1 }) trigger.0)
    by_timer true e =
        subst
          (λ x.
            BehindTimer a n fds revents x
              (timer_done a n fds revents r (record s { transfers = trigger.1 }) trigger.0))
          (sym (trigger_stage_lem a s)) (by_trigger trigger e)
    by_timer false e = (refl, backend_part-IsOwn a n fds revents r s e l)

abbrev internal : Bool → ℕ
internal b = if b then 2 else 1

-- Behind the pipe, the timer's file is counted if there is a timer and it has events, and the files
-- behind it are.
count-behind_pipe :
    (b p : Bool) (revents : List Bool)
    → internal b ≤ length (p ∷ revents)
    → count_ready revents ≡ (
        if b && ready_at 1 (p ∷ revents)
        then count_ready (drop (internal b) (p ∷ revents)) + 1
        else count_ready (drop (internal b) (p ∷ revents)))
count-behind_pipe false p revents m = refl
count-behind_pipe true p [] m = absurd (omega (arith, m))
count-behind_pipe true p (t ∷ rest) m = refl

rest_part-BehindTimer :
    (a : Answers) (b p : Bool) (fds : List PollFd) (revents : List Bool) (r : ℕ) (s : State)
    → s.transfers.using_timerfd ≡ b
    → internal b ≤ length (p ∷ revents)
    → r ≡ count_ready revents
    → 0 < r
    → BehindTimer a
        (internal b)
        fds
        (p ∷ revents)
        (timer_stage a (p ∷ revents) s)
        (timer_part a (internal b) fds (p ∷ revents) r s)
rest_part-BehindTimer a b p fds revents r s u m e l =
    timer_part-BehindTimer a (internal b) fds (p ∷ revents) r s
      (rw u (e ∙ count-behind_pipe b p revents m)) l

-- Where nothing but the pipe has events, the timer has none, and no file behind it.
nothing-BehindTimer :
    (a : Answers) (b p : Bool) (fds : List PollFd) (revents : List Bool) (s : State)
    → s.transfers.using_timerfd ≡ b
    → internal b ≤ length (p ∷ revents)
    → count_ready revents ≡ 0
    → BehindTimer a
        (internal b)
        fds
        (p ∷ revents)
        (timer_stage a (p ∷ revents) s)
        (finish none none s)
nothing-BehindTimer a b p fds revents s u m z =
    by_timer (s.transfers.using_timerfd && ready_at 1 (p ∷ revents))
      (rw u (sym z ∙ count-behind_pipe b p revents m))
  where
    own : ℕ
    own = count_ready (drop (internal b) (p ∷ revents))

    by_timer :
        (c : Bool)
        → 0 ≡ (if c then own + 1 else own)
        → BehindTimer a
            (internal b)
            fds
            (p ∷ revents)
            (if c then trigger_stage a s else (none, s))
            (finish none none s)
    by_timer true e = absurd (omega (arith, e))
    by_timer false e = (refl, rw (← e) (refl, refl))

pipe_done-BehindPipe :
    (a : Answers) (b : Bool) (fds : List PollFd) (revents : List Bool) (x : Option Error × State)
    → x.1.transfers.using_timerfd ≡ b
    → internal b ≤ length (true ∷ revents)
    → BehindPipe a
        (internal b)
        fds
        (true ∷ revents)
        x
        (pipe_done a (internal b) fds (true ∷ revents) (count_ready revents + 1) x)
pipe_done-BehindPipe a b fds revents (some x, s) u m = (refl, refl, refl)
pipe_done-BehindPipe a b fds revents (none, s) u m = by_zero (count_ready revents + 1 - 1 == 0) refl
  where
    by_zero :
        (c : Bool)
        → (count_ready revents + 1 - 1 == 0) ≡ c
        → BehindTimer a (internal b) fds (true ∷ revents) (timer_stage a (true ∷ revents) s) (
            if c
            then finish none none s
            else timer_part a (internal b) fds (true ∷ revents) (count_ready revents + 1 - 1) s)
    by_zero true z = nothing-BehindTimer a b true fds revents s u m (ground (arith, z))
    by_zero false z =
        rest_part-BehindTimer a b true fds revents (count_ready revents + 1 - 1) s u m (omega arith)
          (ground (arith, z))

pub pipe_part-IsAsked :
    (a : Answers) (fds : List PollFd) (revents : List Bool) (s : State)
    → ((id : ℕ) (t : Context) → (a.complete id t).1.using_timerfd ≡ t.using_timerfd)
    → internal_nfds s ≤ length revents
    → 0 < count_ready revents
    → IsAsked a
        (internal_nfds s)
        fds
        revents
        s
        (pipe_part a (internal_nfds s) fds revents (count_ready revents) s)
pipe_part-IsAsked a fds [] s k m l = absurd (omega arith)
pipe_part-IsAsked a fds (false ∷ revents) s k m l = (
  (none, s),
  refl,
  rest_part-BehindTimer a s.transfers.using_timerfd false fds revents (count_ready revents) s refl m
      refl l,
)
pipe_part-IsAsked a fds (true ∷ revents) s k m l = (
  take_events a.complete s,
  take_events-Piped a s,
  pipe_done-BehindPipe a s.transfers.using_timerfd fds revents (take_events a.complete s)
      (complete_all-using_timerfd a.complete _ _ s.transfers k) m,
)
