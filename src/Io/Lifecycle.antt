-- ===== src/Io/Lifecycle.antt =====
-- The life of a transfer in libusb/libusb/io.c: `libusb_submit_transfer`, `libusb_cancel_transfer`,
-- `usbi_handle_transfer_completion`, `usbi_handle_transfer_cancellation` and the handling of
-- timeouts. The answers of the backend and of the kernel's timer are arguments,
-- and so is what the user's callback does to the context.
pub mod Invariant
pub mod Adding
pub mod Submit
pub mod Complete
pub mod Expiry
pub mod Timeouts
use zerousb.Prelude.{
  ℕ, zero, suc, ◌+◌, ◌-◌, not, Bool, true, false, ◌&&◌, ◌||◌, Option, none, some, List, [], ◌∷◌,
  ◌++◌, if◌then◌else◌, ◌==◌, ltb, leb,
}
use zerousb.Usb.{Error, busy, not_found, no_device, other, Result, ok, err}
use zerousb.Io.Time.{TimeVal, TimeSpec, unset, is_set, is_later, timeval_of}
use zerousb.Io.Transfer.{
  Status, completed, error, timed_out, cancelled, Transfer, Context, update, modify,
  needs_no_timeout,
}
use zerousb.Io.Transfer
use zerousb.Io.Flying.{Clock, add_to_flying_list, remove_from_flying_list, next_timeout}

-- libusb_ref_device and libusb_unref_device, of the count alone.
abbrev pub ref_device : ℕ → Context → Context
ref_device dev ctx = record ctx { refs = update ctx.refs dev (ctx.refs dev + 1) }

abbrev pub unref_device : ℕ → Context → Context
unref_device dev ctx = record ctx { refs = update ctx.refs dev (ctx.refs dev - 1) }

-- itransfer->transferred = 0; state_flags = 0; timeout_flags = 0
abbrev pub reset : Transfer → Transfer
reset t = record t {
  transferred = 0;
  in_flight = false;
  cancelling = false;
  device_disappeared = false;
  os_handles_timeout = false;
  timeout_handled = false;
  has_timed_out = false;
}

-- What the environment answers to one call: the clock, whether the timer can be set, and the result
-- of the backend's submit_transfer.
pub record Answers : Type 0 where
  pub clock : Clock
  pub timer_works : Bool
  pub submitted : Result (Unit {0})

-- After the transfer was added: usbi_backend.submit_transfer.
unfoldable pub submit_to_backend : Answers → ℕ → Context → Result (Unit {0}) × Context
submit_to_backend a id ctx = elim a.submitted [
  | ok u ↦
      (ok tt, ref_device (ctx.store id).device (modify id (λ t. record t { in_flight = true }) ctx))
  | err x ↦ (err x, (remove_from_flying_list a.timer_works id ctx).1)
]

unfoldable pub submit_transfer : Answers → ℕ → Context → Result (Unit {0}) × Context
unfolding submit_to_backend
submit_transfer a id ctx =
    if (ctx.store id).in_flight
    then (err busy, ctx)
    else (let (r, ctx') = add_to_flying_list a.clock a.timer_works id (modify id reset ctx) in
        elim r [ err x ↦ (err x, ctx') | ok u ↦ submit_to_backend a id ctx' ])

abbrev pub is_no_device : Error → Bool
is_no_device no_device = true
is_no_device x = false

-- `answer` is that of usbi_backend.cancel_transfer. The transfer is marked as being cancelled whatever
-- the answer is.
unfoldable pub cancel_transfer : Result (Unit {0}) → ℕ → Context → Result (Unit {0}) × Context
cancel_transfer answer id ctx =
    let t = ctx.store id in
    if not t.in_flight || t.cancelling then (err not_found, ctx) else elim answer [
      | ok u ↦ (ok u, modify id (λ t. record t { cancelling = true }) ctx)
      | err x ↦ (
        err x,
        modify id
            (λ t. record t {
              cancelling = true;
              device_disappeared = t.device_disappeared || is_no_device x;
            })
            ctx,
      )
    ]

-- A completed transfer that came out short is an error if the user says so. LIBUSB_CONTROL_SETUP_SIZE
-- is 8.
unfoldable pub final_status : Transfer → Status → Status
final_status t completed =
    if t.short_not_ok
    then (if t.is_control
        then (if t.length == t.transferred + 8 then completed else error)
        else (if t.length == t.transferred then completed else error))
    else completed
final_status t s = s

-- The transfer as the callback sees it.
abbrev pub finish : Status → Transfer → Transfer
finish s t = record t {
  in_flight = false;
  status = final_status t s;
  actual_length = t.transferred;
}

-- `callback` is what the user's callback does, the freeing of the transfer included.
unfoldable pub handle_transfer_completion :
    Bool → (Context → Context) → ℕ → Status → Context → Result (Unit {0}) × Context
unfolding final_status
handle_transfer_completion works callback id s ctx =
    let (r, ctx') = remove_from_flying_list works id ctx in
    (r, unref_device (ctx.store id).device (callback (modify id (finish s) ctx')))

unfoldable pub handle_transfer_cancellation :
    Bool → (Context → Context) → ℕ → Context → Result (Unit {0}) × Context
unfolding handle_transfer_completion
handle_transfer_cancellation works callback id ctx =
    if (ctx.store id).has_timed_out
    then handle_transfer_completion works callback id timed_out ctx
    else handle_transfer_completion works callback id cancelled ctx

-- handle_timeout: `answer` is that of usbi_backend.cancel_transfer.
unfoldable pub handle_timeout : Result (Unit {0}) → ℕ → Context → Context
unfolding cancel_transfer
handle_timeout answer id ctx =
    let (r, ctx') =
      cancel_transfer answer id (modify id (λ t. record t { timeout_handled = true }) ctx) in
    elim r [ ok u ↦ modify id (λ t. record t { has_timed_out = true }) ctx' | err x ↦ ctx' ]

-- The loop of `handle_timeouts_locked` over the rest of the list, at the time `now`.
unfoldable pub handle_timeouts_loop : (ℕ → Result (Unit {0})) → TimeVal → List ℕ → Context → Context
handle_timeouts_loop answers now [] ctx = ctx
handle_timeouts_loop answers now (id ∷ ids) ctx =
    let t = ctx.store id in
    let passed_over = handle_timeouts_loop answers now ids ctx in
    let handled = handle_timeouts_loop answers now ids (handle_timeout (answers id) id ctx) in
    if not (is_set t.timeout)
    then ctx
    else if needs_no_timeout t
    then passed_over
    else if is_later t.timeout now
    then ctx
    else handled

-- handle_timeouts_locked: the clock is read only if a transfer is in flight.
unfoldable pub handle_timeouts :
    Clock → (ℕ → Result (Unit {0})) → Context → Result (Unit {0}) × Context
handle_timeouts clock answers ctx = elim ctx.flying [
  | [] ↦ (ok tt, ctx)
  | id ∷ ids ↦ elim clock [
    | err x ↦ (err x, ctx)
    | ok now ↦ (ok tt, handle_timeouts_loop answers (timeval_of now) ctx.flying ctx)
  ]
]
