-- ===== src/Io/Transfer.antt =====
-- `struct usbi_transfer` with the `struct libusb_transfer` behind it, and the part of
-- `struct libusb_context` that libusb/libusb/io.c keeps transfers in.
use zerousb.Prelude.{ℕ, Bool, Option, List, if◌then◌else◌, ◌==◌, ◌||◌}
use zerousb.Io.Time.{TimeVal}

-- enum libusb_transfer_status
pub data Status : Type 0 where
  completed error timed_out cancelled stall no_device overflow : Status

-- Flag words are their flags. `dev_handle` names the handle, `device` that handle's device.
pub record Transfer : Type 0 where
  -- struct usbi_transfer
  pub timeout : TimeVal
  pub transferred : ℕ
  pub in_flight : Bool
  pub cancelling : Bool
  pub device_disappeared : Bool
  pub os_handles_timeout : Bool
  pub timeout_handled : Bool
  pub has_timed_out : Bool
  -- struct libusb_transfer
  pub dev_handle : ℕ
  pub device : ℕ
  pub short_not_ok : Bool
  pub is_control : Bool
  pub timeout_ms : ℕ
  pub length : ℕ
  pub status : Status
  pub actual_length : ℕ

-- `flying` is ctx->flying_transfers, the transfers by their addresses; `store` is the memory that
-- the addresses lead to. `armed` is the time at which the timerfd goes off. `refs` counts the
-- references to each device.
pub record Context : Type 0 where
  pub flying : List ℕ
  pub store : ℕ → Transfer
  pub using_timerfd : Bool
  pub armed : Option TimeVal
  pub refs : ℕ → ℕ

abbrev pub update {ℓ} : {A : Type ℓ} → (ℕ → A) → ℕ → A → ℕ → A
update f k v j = if j == k then v else f j

-- A write to one transfer.
abbrev pub modify : ℕ → (Transfer → Transfer) → Context → Context
modify id f ctx = record ctx { store = update ctx.store id (f (ctx.store id)) }

-- transfer->timeout_flags & (USBI_TRANSFER_TIMEOUT_HANDLED | USBI_TRANSFER_OS_HANDLES_TIMEOUT)
abbrev pub needs_no_timeout : Transfer → Bool
needs_no_timeout t = t.timeout_handled || t.os_handles_timeout
