-- ===== src/Io/Time/Deadline.antt =====
-- `calculate_timeout` of libusb/libusb/io.c adds the timeout to the clock.
use zerousb.Prelude.{ℕ, ◌+◌, ◌*◌, ◌<◌, ◌≡◌, ◌≢◌, true, arith}
use zerousb.Io.Time.{TimeVal, TimeSpec, is_set, timeval_of, deadline}

abbrev pub micros : TimeVal → ℕ
micros t = t.sec * 1000000 + t.usec

-- With a timeout (in milliseconds) other than 0, and nanoseconds of the clock below a second, the
-- deadline is the clock's time rounded down to microseconds, and the timeout after it; its
-- microseconds are below a second, and it is set.
pub deadline_lem :
    (timeout : ℕ) (now : TimeSpec)
    → now.nsec < 1000000000
    → timeout ≢ 0
    → (micros (deadline timeout now) ≡ micros (timeval_of now) + timeout * 1000)
      × ((deadline timeout now).usec < 1000000)
      × (is_set (deadline timeout now) ≡ true)
unfolding deadline
deadline_lem timeout now h n = ground arith
