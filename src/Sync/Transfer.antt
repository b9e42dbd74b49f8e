-- ===== src/Sync/Transfer.antt =====
-- `libusb_control_transfer` and `do_sync_bulk_transfer` of libusb/libusb/sync.c, with the filling of
-- transfers in libusb/libusb/libusb.h.
use zerousb.Prelude.{
  ℕ, ◌+◌, ◌*◌, ◌/◌, ◌%◌, not, Bool, true, false, Option, none, some, List, [], ◌∷◌, ◌++◌, take,
  drop, if◌then◌else◌, ◌==◌,
}
use zerousb.Usb.{Error, io, no_device, busy, timeout, overflow, pipe, no_mem, Result, ok, err}
use zerousb.Io.Time.{unset}
use zerousb.Io.Transfer.{Status, completed, error, timed_out, cancelled, stall, Transfer, modify}
use zerousb.Io.Lifecycle.{submit_transfer}
use zerousb.Sync.Wait.{Block, Env, Shared, a_buffer, a_transfer, free_transfer, wait_loop}

-- The transfer as libusb_alloc_transfer and libusb_fill_control_transfer or libusb_fill_bulk_transfer
-- leave it.
abbrev pub fill_transfer : ℕ → ℕ → Bool → ℕ → ℕ → Transfer
fill_transfer dev_handle device is_control length timeout_ms = record {
  timeout = unset;
  transferred = 0;
  in_flight = false;
  cancelling = false;
  device_disappeared = false;
  os_handles_timeout = false;
  timeout_handled = false;
  has_timed_out = false;
  dev_handle = dev_handle;
  device = device;
  short_not_ok = false;
  is_control = is_control;
  timeout_ms = timeout_ms;
  length = length;
  status = completed;
  actual_length = 0;
}

-- Arguments of the calls; `id` is the address that calloc gives the transfer, `device` the handle's.
pub record Request : Type 0 where
  pub dev_handle : ℕ
  pub device : ℕ
  pub id : ℕ
  pub timeout_ms : ℕ

-- struct libusb_control_setup
pub record Setup : Type 0 where
  pub bm_request_type : ℕ
  pub b_request : ℕ
  pub w_value : ℕ
  pub w_index : ℕ
  pub w_length : ℕ

-- libusb_cpu_to_le16
abbrev pub le16 : ℕ → List ℕ
le16 x = x % 256 ∷ x / 256 % 256 ∷ []

-- libusb_fill_control_setup
unfoldable pub fill_control_setup : Setup → List ℕ
fill_control_setup s =
    s.bm_request_type ∷ s.b_request ∷ le16 s.w_value ++ le16 s.w_index ++ le16 s.w_length

-- bmRequestType & LIBUSB_ENDPOINT_DIR_MASK
abbrev pub is_in : Setup → Bool
is_in s = s.bm_request_type / 128 % 2 == 1

-- The low and the high byte of wLength, as libusb_fill_control_transfer reads them.
abbrev pub setup_length : List ℕ → ℕ
setup_length (b0 ∷ b1 ∷ b2 ∷ b3 ∷ b4 ∷ b5 ∷ b6 ∷ b7 ∷ bs) = b6 + 256 * b7
setup_length bs = 0

-- The buffer before the submission.
abbrev pub control_buffer : List ℕ → Setup → List ℕ → List ℕ
control_buffer stale s bytes =
    fill_control_setup s ++ (if is_in s then drop 8 stale else take s.w_length bytes)

-- The switch of libusb_control_transfer and that of do_sync_bulk_transfer, which gives 0 for `n`.
abbrev pub result_of : ℕ → Status → Result ℕ
result_of n completed = ok n
result_of n timed_out = err timeout
result_of n stall = err pipe
result_of n Status.no_device = err no_device
result_of n Status.overflow = err overflow
result_of n error = err io
result_of n cancelled = err io

-- What a call returns, with the user's data and the blocks that are allocated then. `transferred` is
-- what the pointer of that name gets.
pub record Outcome : Type 0 where
  pub r : Result ℕ
  pub shared : Shared
  pub bytes : List ℕ
  pub transferred : Option ℕ
  pub live : List Block

-- memcpy(data, libusb_control_transfer_get_data(transfer), transfer->actual_length)
abbrev pub copy_back : Bool → ℕ → List ℕ → List ℕ → List ℕ
copy_back inward n buffer bytes = if inward then take n (drop 8 buffer) ++ drop n bytes else bytes

-- After the wait, in libusb_control_transfer.
abbrev pub finish_control : ℕ → Bool → List ℕ → List Block → Shared → Outcome
finish_control id inward bytes live sh =
    let t = sh.ctx.store id in
    record {
      r = result_of t.actual_length t.status;
      shared = sh;
      bytes = copy_back inward t.actual_length sh.buffer bytes;
      transferred = none;
      live = free_transfer true live;
    }

abbrev pub conclude : (Shared → Outcome) → Option Shared → Option Outcome
conclude finish none = none
conclude finish (some sh) = some (finish sh)

-- From the submission on: `finish` is what follows the wait.
abbrev pub run :
    ℕ → Env → Bool → ℕ → List ℕ → List Block → (Shared → Outcome) → Shared → Option Outcome
run fuel env frees_buffer id bytes live finish sh =
    let (r, ctx) = submit_transfer env.submission id sh.ctx in
    elim r [
      | err x ↦ some (record {
        r = err x;
        shared = record sh { ctx = ctx };
        bytes = bytes;
        transferred = none;
        live = free_transfer frees_buffer live;
      })
      | ok u ↦ conclude finish (wait_loop fuel env id 0 (record sh { ctx = ctx }))
    ]

abbrev pub refused : Error → List ℕ → List Block → Shared → Option Outcome
refused x bytes live sh =
    some (record { r = err x; shared = sh; bytes = bytes; transferred = none; live = live })

unfoldable pub control_transfer :
    ℕ → Env → Request → Setup → List ℕ → Shared → List Block → Option Outcome
unfolding wait_loop fill_control_setup
control_transfer fuel env q s bytes sh live =
    let buffer = control_buffer env.stale s bytes in
    let t = fill_transfer q.dev_handle q.device true (8 + setup_length buffer) q.timeout_ms in
    let live' = a_buffer ∷ a_transfer ∷ live in
    if env.handling_events
    then refused busy bytes live sh
    else if not env.transfer_granted
    then refused no_mem bytes live sh
    else if not env.buffer_granted
    then refused no_mem bytes (free_transfer false (a_transfer ∷ live)) sh
    else run fuel env true q.id bytes live' (finish_control q.id (is_in s) bytes live')
        (record { ctx = modify q.id (λ u. t) sh.ctx; completed = false; buffer = buffer })

-- After the wait, in do_sync_bulk_transfer: the buffer is the user's.
abbrev pub finish_bulk : ℕ → List Block → Shared → Outcome
finish_bulk id live sh =
    let t = sh.ctx.store id in
    record {
      r = result_of 0 t.status;
      shared = sh;
      bytes = sh.buffer;
      transferred = some t.actual_length;
      live = free_transfer false live;
    }

-- do_sync_bulk_transfer, of `length` bytes from or to `data`.
unfoldable pub do_sync_bulk_transfer :
    ℕ → Env → Request → ℕ → List ℕ → Shared → List Block → Option Outcome
unfolding wait_loop
do_sync_bulk_transfer fuel env q length bytes sh live =
    let t = fill_transfer q.dev_handle q.device false length q.timeout_ms in
    if env.handling_events
    then refused busy bytes live sh
    else if not env.transfer_granted
    then refused no_mem bytes live sh
    else run fuel env false q.id bytes (a_transfer ∷ live) (finish_bulk q.id (a_transfer ∷ live))
        (record { ctx = modify q.id (λ u. t) sh.ctx; completed = false; buffer = bytes })
