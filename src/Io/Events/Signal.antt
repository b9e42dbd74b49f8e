-- ===== src/Io/Events/Signal.antt =====
-- The event pipe of libusb/libusb/io.c can be read whenever an event is pending, while threads signal
-- events and the event handler takes them out.
use zerousb.Prelude.{
  ℕ, suc, ◌+◌, ◌-◌, ◌≡◌, ◌≢◌, ◌≤◌, refl, ap, not, Bool, true, false, ◌||◌, Option, none, some, List,
  [], ◌∷◌, if◌then◌else◌, ◌==◌, Bool-cases, inl, inr, arith, length, length-append,
}
use zerousb.Usb.{Error, no_mem, Success, success, Result, ok, err}
use zerousb.Io.Events.{
  PollFd, EventData, is_empty, pending_events, notify, settle, signal_transfer_completion,
  interrupt_event_handler, notify_hotplug, notify_deregistered, fd_notification, add_pollfd, has_fd,
  delete_fd, remove_pollfd, rebuild_pollfds, begin_take, complete_first, end_take, begin_close,
  end_close,
}

-- The event data, and where the event handler is: `some ret` while it takes events out, with the `ret`
-- of the transfers completed so far; `none` outside.
pub record System : Type 0 where
  pub events : EventData
  pub taking : Option (Option Error)

abbrev pub is_taking : Option (Option Error) → Bool
is_taking none = false
is_taking (some r) = true

abbrev pub is_failed : Option Error → Bool
is_failed none = false
is_failed (some x) = true

abbrev pub system : Option (Option Error) → EventData → System
system t d = record { events = d; taking = t }

-- Where an event is pending, or the handler takes events out, the pipe holds a byte; the count of the
-- files to be polled is right.
pub record IsSignalled (s : System) : Type 0 where
  pub pipe_lem : (pending_events s.events || is_taking s.taking) ≡ true → 1 ≤ s.events.pipe
  pub count_lem : s.events.pollfds_cnt ≡ length s.events.ipollfds

-- The steps of the threads that signal events come at any time. Those of the handler and the end of a
-- close exclude each other by the lock of the event handler.
pub data Step : System → System → Type 0 where
  transfer_completion :
      (t : Option (Option Error)) (d : EventData) (id : ℕ)
      → Step (system t d) (system t (signal_transfer_completion id d))
  interrupt :
      (t : Option (Option Error)) (d : EventData)
      → Step (system t d) (system t (interrupt_event_handler d))
  hotplug :
      (t : Option (Option Error)) (d : EventData) (msg : ℕ)
      → Step (system t d) (system t (notify_hotplug msg d))
  deregistered :
      (t : Option (Option Error)) (d : EventData)
      → Step (system t d) (system t (notify_deregistered d))
  add :
      (t : Option (Option Error)) (d : EventData) (granted : Bool) (p : PollFd)
      → Step (system t d) (system t (add_pollfd granted p d).1)
  remove :
      (t : Option (Option Error)) (d : EventData) (fd : ℕ)
      → Step (system t d) (system t (remove_pollfd fd d))
  close : (t : Option (Option Error)) (d : EventData) → Step (system t d) (system t (begin_close d))
  -- A device was being closed.
  closed : (d : EventData) → d.device_close ≢ 0 → Step (system none d) (system none (end_close d))
  rebuild :
      (d : EventData) (granted : Bool)
      → Step (system none d) (system none (rebuild_pollfds granted d).1)
  -- poll() has found the pipe readable.
  take : (d : EventData) → d.pipe ≢ 0 → Step (system none d) (system (some none) (begin_take d).1)
  complete :
      (d : EventData) (transfer : ℕ → Option Error)
      → is_empty d.completed_transfers ≡ false
      → Step
          (system (some none) d)
          (system (some (complete_first transfer d).0) (complete_first transfer d).1)
  taken :
      (d : EventData) (ret : Option Error)
      → (is_failed ret || is_empty d.completed_transfers) ≡ true
      → Step (system (some ret) d) (system none (end_take d))

-- Something is pending or not before; a byte is there afterwards in any case.
notify-IsSignalled :
    (t : Option (Option Error)) (before after : EventData)
    → IsSignalled (system t before)
    → after.pipe ≡ before.pipe
    → after.pollfds_cnt ≡ length after.ipollfds
    → IsSignalled (system t (notify before after))
notify-IsSignalled t before after v e c = by_pending (pending_events before) v.pipe_lem
  where
    by_pending :
        (b : Bool)
        → ((b || is_taking t) ≡ true → 1 ≤ before.pipe)
        → IsSignalled (system t (if b then after else record after { pipe = after.pipe + 1 }))
    by_pending true q = record { pipe_lem = λ h. rw e (q refl); count_lem = c }
    by_pending false q = record { pipe_lem = λ h. omega arith; count_lem = c }

-- A byte is taken out only if nothing is pending.
settle-IsSignalled :
    (d : EventData)
    → 1 ≤ d.pipe
    → d.pollfds_cnt ≡ length d.ipollfds
    → IsSignalled (system none (settle d))
settle-IsSignalled d l c = by_pending (pending_events d) refl
  where
    clash : false ≡ true → ⊥
    clash e = cc

    by_pending :
        (b : Bool)
        → pending_events d ≡ b
        → IsSignalled (system none (if b then d else record d { pipe = d.pipe - 1 }))
    by_pending true q = record { pipe_lem = λ h. l; count_lem = c }
    by_pending false q = record { pipe_lem = λ h. absurd (clash (rw q at h)); count_lem = c }

abbrev rebuilt : EventData → Bool → Result Success × EventData
rebuilt d granted =
    if not granted
    then (err no_mem, record d { pollfds = none })
    else (ok success, settle (record d { pollfds = some d.ipollfds; pollfds_modified = false }))

rebuilt-IsSignalled :
    (d : EventData) (granted : Bool)
    → IsSignalled (system none d)
    → 1 ≤ d.pipe
    → IsSignalled (system none (rebuilt d granted).1)
rebuilt-IsSignalled d true v l =
    settle-IsSignalled (record d { pollfds = some d.ipollfds; pollfds_modified = false }) l
      v.count_lem
rebuilt-IsSignalled d false v l = record { pipe_lem = v.pipe_lem; count_lem = v.count_lem }

rebuild-IsSignalled :
    (d : EventData) (granted b : Bool)
    → d.pollfds_modified ≡ b
    → IsSignalled (system none d)
    → IsSignalled (system none (if not b then (ok success, d) else rebuilt d granted).1)
rebuild-IsSignalled d granted true e v = rebuilt-IsSignalled d granted v (v.pipe_lem (rw e refl))
rebuild-IsSignalled d granted false e v = v

length-delete_fd :
    (fd : ℕ) (ps : List PollFd) → has_fd fd ps ≡ true → length ps ≡ suc (length (delete_fd fd ps))
length-delete_fd fd [] h = cc
length-delete_fd fd (p ∷ ps) h = elim (Bool-cases (p.fd == fd)) [
  | inl q ↦ rw q refl
  | inr q ↦ rw q (ap suc (length-delete_fd fd ps (rw q at h)))
]

or_true : (b : Bool) → (b || true) ≡ true
or_true true = refl
or_true false = refl

completed-IsSignalled :
    (d : EventData) (transfer : ℕ → Option Error)
    → IsSignalled (system (some none) d)
    → IsSignalled (system (some (complete_first transfer d).0) (complete_first transfer d).1)
unfolding complete_first
completed-IsSignalled d transfer v = by_list d.completed_transfers
  where
    round : List ℕ → Option Error × EventData
    round xs = elim xs [
      | [] ↦ (none, d)
      | id ∷ ids ↦ (transfer id, record d { completed_transfers = ids })
    ]

    by_list : (xs : List ℕ) → IsSignalled (system (some (round xs).0) (round xs).1)
    by_list [] = v
    by_list (id ∷ ids) = record { pipe_lem = λ h. v.pipe_lem (or_true _); count_lem = v.count_lem }

Step-IsSignalled : {s s' : System} → Step s s' → IsSignalled s → IsSignalled s'
unfolding signal_transfer_completion interrupt_event_handler notify_hotplug notify_deregistered
    fd_notification add_pollfd remove_pollfd rebuild_pollfds begin_take complete_first end_take
    begin_close end_close
Step-IsSignalled (transfer_completion t d id) v = notify-IsSignalled t d _ v refl v.count_lem
Step-IsSignalled (interrupt t d) v = notify-IsSignalled t d _ v refl v.count_lem
Step-IsSignalled (hotplug t d msg) v = notify-IsSignalled t d _ v refl v.count_lem
Step-IsSignalled (deregistered t d) v = notify-IsSignalled t d _ v refl v.count_lem
Step-IsSignalled (add t d true p) v =
    notify-IsSignalled t d _ v refl (rw (length-append d.ipollfds (p ∷ [])) (rw v.count_lem refl))
Step-IsSignalled (add t d false p) v = v
Step-IsSignalled (remove t d fd) v = elim (Bool-cases (has_fd fd d.ipollfds)) [
  | inl h ↦ rw h (
      notify-IsSignalled t d _ v refl
        (rw v.count_lem (omega (arith, length-delete_fd fd d.ipollfds h))))
  | inr h ↦ rw h v
]
Step-IsSignalled (close t d) v = notify-IsSignalled t d _ v refl v.count_lem
Step-IsSignalled (closed d z) v =
    settle-IsSignalled (record d { device_close = d.device_close - 1 }) (v.pipe_lem (ground arith))
      v.count_lem
Step-IsSignalled (rebuild d granted) v = rebuild-IsSignalled d granted d.pollfds_modified refl v
Step-IsSignalled (take d z) v = record { pipe_lem = λ h. omega arith; count_lem = v.count_lem }
Step-IsSignalled (complete d transfer e) v = completed-IsSignalled d transfer v
Step-IsSignalled (taken d ret e) v = settle-IsSignalled d (v.pipe_lem (or_true _)) v.count_lem

pub data Reach (s : System) : System → Type 0 where
  start : Reach s s
  then_step : {a b : System} → Reach s a → Step a b → Reach s b

-- A context starts with nothing to poll, nothing pending and nobody handling events.
abbrev pub initial : EventData
initial = record {
  pollfds_modified = false;
  user_interrupt = false;
  hotplug_cb_deregistered = false;
  device_close = 0;
  hotplug_msgs = [];
  completed_transfers = [];
  pipe = 0;
  ipollfds = [];
  pollfds_cnt = 0;
  pollfds = none;
}

-- In every state that a context can reach from its start, while threads complete transfers, interrupt
-- the handler, report devices, deregister callbacks, change the poll descriptors and close devices, at
-- any time and also between the completions that the event handler makes, memory being refused or not:
-- the event pipe can be read if an event is pending, so that no event is lost, and if the handler is
-- taking events out, so that it does not wait when it clears the pipe; and the count of the poll
-- descriptors is right.
pub reachable-IsSignalled : (s : System) → Reach (system none initial) s → IsSignalled s
reachable-IsSignalled s start = record { pipe_lem = λ h. cc; count_lem = refl }
reachable-IsSignalled s (then_step r q) = Step-IsSignalled q (reachable-IsSignalled _ r)
