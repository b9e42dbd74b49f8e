-- ===== src/Io/Flying.antt =====
-- The list of transfers in flight of libusb/libusb/io.c: `add_to_flying_list`,
-- `remove_from_flying_list` and `arm_timerfd_for_next_timeout`.
pub mod Lists
pub mod Sorted
use zerousb.Prelude.{
  ℕ, not, Bool, true, false, ◌&&◌, ◌||◌, Option, none, some, List, [], ◌∷◌, ◌++◌, if◌then◌else◌,
  ◌==◌,
}
use zerousb.Usb.{Error, other, Result, ok, err}
use zerousb.Io.Time.{TimeVal, TimeSpec, unset, is_set, is_later, deadline}
use zerousb.Io.Transfer.{Transfer, Context, modify, needs_no_timeout}

-- The list with the transfer before the first one that has no deadline or a later one.
unfoldable pub insert_by_deadline : (ℕ → Transfer) → TimeVal → ℕ → List ℕ → List ℕ
insert_by_deadline st t id [] = id ∷ []
insert_by_deadline st t id (cur ∷ rest) =
    let rest' = insert_by_deadline st t id rest in
    if not (is_set (st cur).timeout) || is_later (st cur).timeout t
    then id ∷ cur ∷ rest
    else cur ∷ rest'

-- A transfer without a deadline goes to the end.
unfoldable pub insert_flying : (ℕ → Transfer) → TimeVal → ℕ → List ℕ → List ℕ
unfolding insert_by_deadline
insert_flying st t id flying =
    if not (is_set t) then flying ++ id ∷ [] else insert_by_deadline st t id flying

-- list_del
unfoldable pub delete : ℕ → List ℕ → List ℕ
delete id [] = []
delete id (x ∷ xs) = if x == id then xs else x ∷ delete id xs

-- `first` of `add_to_flying_list`, of a transfer with a deadline: it stands before all the others.
abbrev pub is_first : ℕ → List ℕ → Bool
is_first id [] = false
is_first id (x ∷ xs) = x == id

-- timerfd_settime: it sets the timer, or fails.
abbrev pub settime : Bool → Option TimeVal → Context → Result (Unit {0}) × Context
settime works t ctx = if works then (ok tt, record ctx { armed = t }) else (err other, ctx)

-- clock_gettime with USBI_CLOCK_MONOTONIC as the backend answers it.
abbrev pub Clock : Type 0
Clock = Result TimeSpec

-- transfer->timeout = t
abbrev pub set_timeout : ℕ → TimeVal → Context → Context
set_timeout id t ctx = modify id (λ tr. record tr { timeout = t }) ctx

-- calculate_timeout: the clock is read only for a transfer with a timeout.
unfoldable pub calculate_timeout : Clock → ℕ → Context → Result (Unit {0}) × Context
unfolding deadline
calculate_timeout clock id ctx =
    if (ctx.store id).timeout_ms == 0 then (ok tt, set_timeout id unset ctx) else elim clock [
      | err x ↦ (err x, ctx)
      | ok now ↦ (ok tt, set_timeout id (deadline (ctx.store id).timeout_ms now) ctx)
    ]

-- out: the timer is armed for a transfer that is first in line and has a deadline; if that fails the
-- transfer is taken off the list.
unfoldable pub arm_first : Bool → ℕ → Context → Result (Unit {0}) × Context
unfolding delete
arm_first works id ctx =
    if is_first id ctx.flying && ctx.using_timerfd && is_set (ctx.store id).timeout
    then (let (r, ctx') = settime works (some (ctx.store id).timeout) ctx in
        elim r [
          | ok u ↦ (ok tt, ctx')
          | err x ↦ (err x, record ctx' { flying = delete id ctx.flying })
        ])
    else (ok tt, ctx)

unfoldable pub add_to_flying_list : Clock → Bool → ℕ → Context → Result (Unit {0}) × Context
unfolding insert_flying calculate_timeout arm_first
add_to_flying_list clock works id ctx =
    let (r, ctx') = calculate_timeout clock id ctx in
    elim r [
      | err x ↦ (err x, ctx')
      | ok u ↦
          arm_first works id (record ctx' {
            flying = insert_flying ctx'.store (ctx'.store id).timeout id ctx'.flying;
          })
    ]

-- The transfer for which the timer has to go off next, if there is one.
unfoldable pub next_timeout : (ℕ → Transfer) → List ℕ → Option TimeVal
next_timeout st [] = none
next_timeout st (id ∷ ids) =
    let rest = next_timeout st ids in
    if not (is_set (st id).timeout)
    then none
    else if not (needs_no_timeout (st id))
    then some (st id).timeout
    else rest

-- arm_timerfd_for_next_timeout, and `disarm_timerfd` where there is none.
unfoldable pub arm_for_next_timeout : Bool → Context → Result (Unit {0}) × Context
unfolding next_timeout
arm_for_next_timeout works ctx = settime works (next_timeout ctx.store ctx.flying) ctx

unfoldable pub remove_from_flying_list : Bool → ℕ → Context → Result (Unit {0}) × Context
unfolding delete arm_for_next_timeout
remove_from_flying_list works id ctx =
    let rearm = is_set (ctx.store id).timeout && is_first id ctx.flying in
    let ctx' = record ctx { flying = delete id ctx.flying } in
    if ctx.using_timerfd && rearm then arm_for_next_timeout works ctx' else (ok tt, ctx')
