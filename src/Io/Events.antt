-- ===== src/Io/Events.antt =====
-- The event data of a context in libusb/libusb/io.c: what is pending, and the pipe by which the event
-- handler is woken; with `usbi_signal_event`, `usbi_clear_event` and the device closing of
-- libusb/libusb/core.c, and the notification of libusb/libusb/hotplug.c.
pub mod Signal
use zerousb.Prelude.{
  ℕ, zero, suc, ◌+◌, ◌-◌, not, Bool, true, false, ◌||◌, ◌&&◌, Option, none, some, List, [], ◌∷◌,
  ◌++◌, if◌then◌else◌, ◌==◌,
}
use zerousb.Usb.{Error, no_mem, Success, success, Result, ok, err}

pub record PollFd : Type 0 where
  pub fd : ℕ
  pub events : ℕ

-- `event_flags` by flag. `hotplug_msgs` and `completed_transfers` name their entries by numbers. `pipe`
-- counts the bytes in the event pipe, which takes every byte written. `ipollfds` and `pollfds_cnt` are
-- the files to be polled, `pollfds` the array for poll().
pub record EventData : Type 0 where
  pub pollfds_modified : Bool
  pub user_interrupt : Bool
  pub hotplug_cb_deregistered : Bool
  pub device_close : ℕ
  pub hotplug_msgs : List ℕ
  pub completed_transfers : List ℕ
  pub pipe : ℕ
  pub ipollfds : List PollFd
  pub pollfds_cnt : ℕ
  pub pollfds : Option (List PollFd)

module _ {A : Type 0} where
  abbrev pub is_empty : List A → Bool
  is_empty [] = true
  is_empty (x ∷ xs) = false

-- usbi_pending_events
abbrev pub pending_events : EventData → Bool
pending_events d =
    d.pollfds_modified
    || d.user_interrupt
    || d.hotplug_cb_deregistered
    || not (d.device_close == 0)
    || not (is_empty d.hotplug_msgs)
    || not (is_empty d.completed_transfers)

-- usbi_signal_event and usbi_clear_event write and read a byte.
abbrev pub signal_event : EventData → EventData
signal_event d = record d { pipe = d.pipe + 1 }

abbrev pub clear_event : EventData → EventData
clear_event d = record d { pipe = d.pipe - 1 }

-- The shape of all notifications: the event handler is signalled if nothing was pending before.
abbrev pub notify : EventData → EventData → EventData
notify before after = if pending_events before then after else signal_event after

-- if (!usbi_pending_events(ctx)) usbi_clear_event(ctx);
abbrev pub settle : EventData → EventData
settle d = if pending_events d then d else clear_event d

unfoldable pub signal_transfer_completion : ℕ → EventData → EventData
signal_transfer_completion id d =
    notify d (record d { completed_transfers = d.completed_transfers ++ id ∷ [] })

unfoldable pub interrupt_event_handler : EventData → EventData
interrupt_event_handler d = notify d (record d { user_interrupt = true })

unfoldable pub notify_hotplug : ℕ → EventData → EventData
notify_hotplug msg d = notify d (record d { hotplug_msgs = d.hotplug_msgs ++ msg ∷ [] })

unfoldable pub notify_deregistered : EventData → EventData
notify_deregistered d = notify d (record d { hotplug_cb_deregistered = true })

unfoldable pub fd_notification : EventData → EventData
fd_notification d = notify d (record d { pollfds_modified = true })

-- usbi_add_pollfd; `granted` is whether malloc gives memory.
unfoldable pub add_pollfd : Bool → PollFd → EventData → Result Success × EventData
unfolding fd_notification
add_pollfd granted p d = if not granted then (err no_mem, d) else (
  ok success,
  fd_notification (record d { ipollfds = d.ipollfds ++ p ∷ []; pollfds_cnt = d.pollfds_cnt + 1 }),
)

abbrev pub has_fd : ℕ → List PollFd → Bool
has_fd fd [] = false
has_fd fd (p ∷ ps) = if p.fd == fd then true else has_fd fd ps

abbrev pub delete_fd : ℕ → List PollFd → List PollFd
delete_fd fd [] = []
delete_fd fd (p ∷ ps) = if p.fd == fd then ps else p ∷ delete_fd fd ps

unfoldable pub remove_pollfd : ℕ → EventData → EventData
unfolding fd_notification
remove_pollfd fd d =
    if not (has_fd fd d.ipollfds)
    then d
    else fd_notification
        (record d { ipollfds = delete_fd fd d.ipollfds; pollfds_cnt = d.pollfds_cnt - 1 })

-- handle_events, where the poll descriptors were modified: the old array is freed, and a new one made.
unfoldable pub rebuild_pollfds : Bool → EventData → Result Success × EventData
rebuild_pollfds granted d =
    if not d.pollfds_modified
    then (ok success, d)
    else if not granted
    then (err no_mem, record d { pollfds = none })
    else (ok success, settle (record d { pollfds = some d.ipollfds; pollfds_modified = false }))

-- What handle_events takes out under event_data_lock when the pipe can be read: whether callbacks were
-- deregistered, and the messages.
pub record Taken : Type 0 where
  pub deregistered : Bool
  pub msgs : List ℕ

unfoldable pub begin_take : EventData → Taken × EventData
begin_take d = (
  record { deregistered = d.hotplug_cb_deregistered; msgs = d.hotplug_msgs },
  record d { user_interrupt = false; hotplug_cb_deregistered = false; hotplug_msgs = [] },
)

-- A round of while (ret == 0 && !list_empty(&ctx->completed_transfers)), in which event_data_lock is
-- given up: `complete` is the backend's handle_transfer_completion. The round's `ret`.
unfoldable pub complete_first : (ℕ → Option Error) → EventData → Option Error × EventData
complete_first complete d = elim d.completed_transfers [
  | [] ↦ (none, d)
  | id ∷ ids ↦ (complete id, record d { completed_transfers = ids })
]

-- Behind the loop: the pipe is cleared if nothing is pending.
unfoldable pub end_take : EventData → EventData
end_take d = settle d

-- libusb_close outside of event handling: before and after the device is closed.
unfoldable pub begin_close : EventData → EventData
begin_close d = notify d (record d { device_close = d.device_close + 1 })

unfoldable pub end_close : EventData → EventData
end_close d = settle (record d { device_close = d.device_close - 1 })
