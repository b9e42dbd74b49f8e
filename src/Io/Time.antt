-- ===== src/Io/Time.antt =====
-- The times of libusb/libusb/io.c and the deadline that `calculate_timeout` computes.
pub mod Deadline
use zerousb.Prelude.{
  ℕ, zero, suc, ◌+◌, ◌-◌, ◌*◌, ◌/◌, ◌%◌, not, Bool, true, false, ◌&&◌, ◌||◌, ltb, if◌then◌else◌,
  ◌==◌,
}

-- struct timeval and struct timespec; times of the monotonic clock are not negative.
pub record TimeVal : Type 0 where
  pub sec : ℕ
  pub usec : ℕ

pub record TimeSpec : Type 0 where
  pub sec : ℕ
  pub nsec : ℕ

-- timerclear and timerisset
abbrev pub unset : TimeVal
unset = record { sec = 0; usec = 0 }

abbrev pub is_set : TimeVal → Bool
is_set t = not (t.sec == 0 && t.usec == 0)

-- The test of `add_to_flying_list` and `handle_timeouts_locked`: a is later than b.
abbrev pub is_later : TimeVal → TimeVal → Bool
is_later a b = ltb b.sec a.sec || (a.sec == b.sec && ltb b.usec a.usec)

-- while (current_time.tv_nsec >= 1000000000) { ... }
unfoldable pub normalize : ℕ → TimeSpec → TimeSpec
normalize zero t = t
normalize (suc f) t =
    let rest = normalize f (record { sec = t.sec + 1; nsec = t.nsec - 1000000000 }) in
    if ltb t.nsec 1000000000 then t else rest

-- TIMESPEC_TO_TIMEVAL
abbrev pub timeval_of : TimeSpec → TimeVal
timeval_of t = record { sec = t.sec; usec = t.nsec / 1000 }

-- The deadline of a transfer with a timeout in milliseconds, at the time `now`. Both summands are
-- below a second if the clock's nanoseconds are, so two rounds are enough.
unfoldable pub deadline : ℕ → TimeSpec → TimeVal
unfolding normalize
deadline timeout now =
    if timeout == 0
    then unset
    else timeval_of (
        normalize 2
          (record { sec = now.sec + timeout / 1000; nsec = now.nsec + timeout % 1000 * 1000000 }))
