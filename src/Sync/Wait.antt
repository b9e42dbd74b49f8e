-- ===== src/Sync/Wait.antt =====
-- The memory of a synchronous call and the wait loop of libusb/libusb/sync.c, with
-- `libusb_alloc_transfer` and `libusb_free_transfer` of libusb/libusb/io.c.
use zerousb.Prelude.{
  ℕ, zero, suc, ◌+◌, Bool, true, false, Option, none, some, List, [], ◌∷◌, if◌then◌else◌,
}
use zerousb.Usb.{interrupted, Success, Result, ok, err}
use zerousb.Io.Transfer.{Context}
use zerousb.Io.Lifecycle.{Answers, cancel_transfer}

-- What the waiting thread and the event handling share: the context, `completed` that user_data points
-- to, and the transfer's buffer.
pub record Shared : Type 0 where
  pub ctx : Context
  pub completed : Bool
  pub buffer : List ℕ

-- One call's environment: usbi_handling_events, the answers of the allocations and of the submission;
-- the answer of the backend's cancel_transfer and libusb_handle_events_completed in each round.
pub record Env : Type 0 where
  pub handling_events : Bool
  pub transfer_granted : Bool
  pub buffer_granted : Bool
  -- What malloc leaves in the buffer.
  pub stale : List ℕ
  pub submission : Answers
  pub handle_events : ℕ → Shared → Result Success × Shared
  pub cancellation : ℕ → Result (Unit {0})

-- The blocks that are allocated.
pub data Block : Type 0 where
  a_transfer a_buffer : Block

abbrev pub same_block : Block → Block → Bool
same_block a_transfer a_transfer = true
same_block a_buffer a_buffer = true
same_block b c = false

-- free(b)
abbrev pub release : Block → List Block → List Block
release b [] = []
release b (c ∷ cs) = if same_block b c then cs else c ∷ release b cs

-- libusb_free_transfer; `frees_buffer` is LIBUSB_TRANSFER_FREE_BUFFER with a buffer.
abbrev pub free_transfer : Bool → List Block → List Block
free_transfer frees_buffer live =
    release a_transfer (if frees_buffer then release a_buffer live else live)

-- What follows libusb_handle_events_completed in a round.
abbrev pub after_events : Result (Unit {0}) → ℕ → Result Success → Shared → Shared
after_events cancellation id (ok s) sh = sh
after_events cancellation id (err interrupted) sh = sh
after_events cancellation id (err x) sh = record sh {
  ctx = (cancel_transfer cancellation id sh.ctx).1;
}

-- sync_transfer_wait_for_completion: round k and those after it, one for each unit of fuel.
unfoldable pub wait_loop : ℕ → Env → ℕ → ℕ → Shared → Option Shared
wait_loop zero env id k sh = none
wait_loop (suc f) env id k sh =
    let (r, sh') = env.handle_events k sh in
    let rest = wait_loop f env id (k + 1) (after_events (env.cancellation k) id r sh') in
    if sh.completed then some sh else rest
