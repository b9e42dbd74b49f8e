-- ===== src/Io/Upcoming.antt =====
-- `libusb_get_next_timeout` and `get_next_timeout` of libusb/libusb/io.c: how long poll() may wait where
-- the kernel has no timerfd.
pub mod Wait
use zerousb.Prelude.{
  ℕ, ◌+◌, ◌-◌, not, Bool, true, false, Option, none, some, List, [], ◌∷◌, if◌then◌else◌, ltb, ◌==◌,
}
use zerousb.Usb.{ok, err}
use zerousb.Io.Time.{TimeVal, timeval_of, unset, is_set}
use zerousb.Io.Transfer.{Transfer, Context, needs_no_timeout}
use zerousb.Io.Flying.{Clock}

-- timercmp(a, b, <)
abbrev pub is_before : TimeVal → TimeVal → Bool
is_before a b = if a.sec == b.sec then ltb a.usec b.usec else ltb a.sec b.sec

-- timersub(a, b, result), of an a that is not before b.
abbrev pub time_between : TimeVal → TimeVal → TimeVal
time_between a b =
    if ltb a.usec b.usec
    then record { sec = a.sec - b.sec - 1; usec = a.usec + 1000000 - b.usec }
    else record { sec = a.sec - b.sec; usec = a.usec - b.usec }

-- `next_timeout`: that of the first transfer whose timeout was not handled.
unfoldable pub soonest : (ℕ → Transfer) → List ℕ → TimeVal
soonest st [] = unset
soonest st (id ∷ ids) =
    let rest = soonest st ids in
    if needs_no_timeout (st id)
    then rest
    else if not (is_set (st id).timeout)
    then unset
    else (st id).timeout

-- What the time is compared with the timeout for.
abbrev pub remaining : TimeVal → TimeVal → TimeVal
remaining cur next = if not (is_before cur next) then unset else time_between next cur

-- libusb_get_next_timeout: `none` if it returns 0.
unfoldable pub get_next_timeout_of : Clock → Context → Option TimeVal
unfolding soonest
get_next_timeout_of clock ctx =
    let next = soonest ctx.store ctx.flying in
    if ctx.using_timerfd
    then none
    else if not (is_set next)
    then none
    else elim clock [ err x ↦ none | ok now ↦ some (remaining (timeval_of now) next) ]

-- choose the smallest of next URB timeout or user specified timeout; `none` if the first has expired.
abbrev pub smallest : TimeVal → Option TimeVal → Option TimeVal
smallest tv none = some tv
smallest tv (some timeout) =
    if not (is_set timeout) then none else some (if is_before timeout tv then timeout else tv)

-- get_next_timeout: `none` if it returns 1, a timeout having expired; else what it gives out.
unfoldable pub get_next_timeout : Clock → TimeVal → Context → Option TimeVal
unfolding get_next_timeout_of
get_next_timeout clock tv ctx = smallest tv (get_next_timeout_of clock ctx)
