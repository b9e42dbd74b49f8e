-- ===== src/Io/Setup.antt =====
-- `usbi_io_init` and `usbi_io_exit` of libusb/libusb/io.c: the event pipe and the timer of a context, and
-- their entries among the files to be polled.
use zerousb.Prelude.{
  ℕ, ◌≡◌, ◌≢◌, refl, Bool, true, false, Option, none, some, List, [], ◌∷◌, arith, length,
}
use zerousb.Usb.{other, Success, success, Result, ok, err}
use zerousb.Core.Devices.{remove}
use zerousb.Io.Events.{PollFd, EventData, add_pollfd, remove_pollfd, fd_notification}
use zerousb.Io.Events.Signal.{initial}

-- The descriptors of a context and its event data; `fds` are the open descriptors of the process.
pub record Io : Type 0 where
  pub event_pipe : ℕ × ℕ
  pub timerfd : Option ℕ
  pub events : EventData
  pub fds : List ℕ

-- What the system answers: the two ends of a pipe, memory for the entries, and a timer.
pub record Answers : Type 0 where
  pub pipe : Option (ℕ × ℕ)
  pub pipe_entry : Bool
  pub timer : Option ℕ
  pub timer_entry : Bool

abbrev pollin : ℕ
pollin = 0x1

-- close
abbrev pub close_fd : ℕ → Io → Io
close_fd fd s = record s { fds = remove fd s.fds }

-- usbi_remove_pollfd
abbrev pub unpoll : ℕ → Io → Io
unpoll fd s = record s { events = remove_pollfd fd s.events }

-- err_close_pipe
abbrev pub close_pipe : Io → Io
close_pipe s = close_fd s.event_pipe.1 (close_fd s.event_pipe.0 s)

-- The timer, where timerfd_create gives one: usbi_add_pollfd for it, or err_close_timerfd.
abbrev pub add_timer : ℕ → Bool → Io → Result Success × Io
add_timer fd granted s =
    let opened = record s { timerfd = some fd; fds = fd ∷ s.fds } in
    let (r, e) = add_pollfd granted (record { fd = fd; events = pollin }) opened.events in
    elim r [
      | ok x ↦ (ok x, record opened { events = e })
      | err x ↦
          (err x, close_pipe (unpoll s.event_pipe.0 (close_fd fd (record opened { events = e }))))
    ]

abbrev pub add_pipe : Answers → Io → Result Success × Io
add_pipe a s =
    let entry =
      add_pollfd a.pipe_entry (record { fd = s.event_pipe.0; events = pollin }) s.events in
    let polled = record s { events = entry.1 } in
    elim entry.0 [
      | err x ↦ (err x, close_pipe polled)
      | ok x ↦ elim a.timer [
        | none ↦ (ok success, record polled { timerfd = none })
        | some fd ↦ add_timer fd a.timer_entry polled
      ]
    ]

-- usbi_io_init, with USBI_TIMERFD_AVAILABLE. Nothing was polled for the context before.
unfoldable pub io_init : Answers → List ℕ → Result Success × Io
io_init a fds =
    let s : Io = record { event_pipe = (0, 0); timerfd = none; events = initial; fds = fds } in
    elim a.pipe [
      | none ↦ (err other, s)
      | some p ↦ add_pipe a (record s { event_pipe = p; fds = p.0 ∷ p.1 ∷ fds })
    ]

-- usbi_io_exit, less the array `pollfds` that it frees.
unfoldable pub io_exit : Io → Io
io_exit s =
    let s1 = close_pipe (unpoll s.event_pipe.0 s) in
    elim s1.timerfd [ none ↦ s1 | some fd ↦ close_fd fd (unpoll fd s1) ]

-- The descriptors that the system gives out together are different.
abbrev pub Fresh : Answers → Type 0
Fresh a =
    (p : ℕ × ℕ)
    → a.pipe ≡ some p
    → (p.0 ≢ p.1) × ((t : ℕ) → a.timer ≡ some t → (t ≢ p.0) × (t ≢ p.1))

-- No descriptor is open beyond the given ones, and nothing is polled.
abbrev pub IsClosed : List ℕ → Io → Type 0
IsClosed fds s = (s.fds ≡ fds) × (s.events.ipollfds ≡ []) × (s.events.pollfds_cnt ≡ 0)

-- The files that the library polls for itself: the event pipe first, and the timer if there is one.
abbrev pub internal_fds : Io → List PollFd
internal_fds s =
    record { fd = s.event_pipe.0; events = pollin }
    ∷ elim s.timerfd [ none ↦ [] | some fd ↦ record { fd = fd; events = pollin } ∷ [] ]

abbrev pub Balanced : List ℕ → Result Success × Io → Type 0
Balanced fds (err x, s) = IsClosed fds s
Balanced fds (ok x, s) =
    (s.events.ipollfds ≡ internal_fds s)
    × (s.events.pollfds_cnt ≡ length s.events.ipollfds)
    × (s.events.pollfds_modified ≡ true)
    × IsClosed fds (io_exit s)

remove_head : (x : ℕ) (xs : List ℕ) → remove x (x ∷ xs) ≡ xs
remove_head x xs = ground arith

remove_next : (x y : ℕ) (xs : List ℕ) → x ≢ y → remove x (y ∷ xs) ≡ y ∷ remove x xs
remove_next x y xs n = ground arith

-- Where the initialisation of a context's event handling fails, at the pipe, at either entry for poll or
-- at the timer, every descriptor that it opened is closed again and nothing is polled; where it
-- succeeds, the files to be polled are the event pipe first and the timer second if there is one, their
-- count is right, the array for poll() is marked as out of date, and the exit closes all that was
-- opened.
pub io_init-Balanced : (a : Answers) (fds : List ℕ) → Fresh a → Balanced fds (io_init a fds)
unfolding io_init io_exit add_pollfd remove_pollfd fd_notification
io_init-Balanced a fds h = by_answers a.pipe a.pipe_entry a.timer a.timer_entry h
  where
    by_answers :
        (pipe : Option (ℕ × ℕ)) (pipe_entry : Bool) (timer : Option ℕ) (timer_entry : Bool)
        → Fresh (record {
          pipe = pipe;
          pipe_entry = pipe_entry;
          timer = timer;
          timer_entry = timer_entry;
        })
        → Balanced fds (
            io_init
              (record {
                pipe = pipe;
                pipe_entry = pipe_entry;
                timer = timer;
                timer_entry = timer_entry;
              })
              fds)
    by_answers none pe timer te h = (refl, refl, refl)
    by_answers (some (p, q)) false timer te h = ground arith
    by_answers (some (p, q)) true none te h = ground arith
    by_answers (some (p, q)) true (some t) false h = ground (arith, h (p, q) refl)
    by_answers (some (p, q)) true (some t) true h =
        let (n, apart) = h (p, q) refl in let (l, r) = apart t refl in ground arith
