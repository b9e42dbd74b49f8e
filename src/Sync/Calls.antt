-- ===== src/Sync/Calls.antt =====
-- The calls of libusb/libusb/sync.c return, release what they allocated, and report what happened.
use zerousb.Prelude.{
  ℕ, ◌+◌, ◌≡◌, ◌<◌, refl, sym, not, Bool, true, false, Option, none, some, List, ◌∷◌, if◌then◌else◌,
  arith,
}
use zerousb.Usb.{Error, busy, no_mem, Result, ok, err}
use zerousb.Io.Transfer.{Status, completed, Context}
use zerousb.Io.Lifecycle.{submit_transfer}
use zerousb.Sync.Wait.{Shared, Env, Block, a_transfer, a_buffer, free_transfer, wait_loop}
use zerousb.Sync.Transfer.{
  Request, Setup, result_of, Outcome, conclude, run, refused, is_in, finish_control,
  control_transfer, finish_bulk, do_sync_bulk_transfer,
}
use zerousb.Sync.Ends.{after_rounds, Completes, IsOver, wait_loop-IsOver}

result_of-ok : (n m : ℕ) (s : Status) → result_of n s ≡ ok m → (s ≡ completed) × (n ≡ m)
result_of-ok n m s h = ground arith

-- The transfer was submitted, not completed yet, and what is left is that behind the rounds of event
-- handling, the last of which was the first to complete it.
abbrev pub Waited : Env → ℕ → Shared → Type 0
Waited env id done =
    (c : Context) × (start : Shared) × (m : ℕ) × (submit_transfer env.submission id c
      ≡ (ok tt, start.ctx))
    × (start.completed ≡ false)
    × (done ≡ after_rounds m env id 0 start)
    × Completes m env id 0 start

-- A success is that of a transfer that was waited for, is over and was completed, with its length
-- reported.
abbrev pub Tells : Env → ℕ → (Outcome → ℕ → Type 0) → Outcome → Result ℕ → Type 0
Tells env id Told out (ok n) =
    Waited env id out.shared × ((out.shared.ctx.store id).status ≡ completed) × Told out n
Tells env id Told out (err x) = Unit {0}

abbrev pub Reports : Env → ℕ → (Outcome → ℕ → Type 0) → Outcome → Type 0
Reports env id Told out = Tells env id Told out out.r

told :
    (env : Env) (id : ℕ) (Told : Outcome → ℕ → Type 0) (out : Outcome) (r : Result ℕ)
    → ((n : ℕ) → r ≡ ok n → Tells env id Told out (ok n))
    → Tells env id Told out r
told env id Told out (ok n) f = f n refl
told env id Told out (err x) f = tt

-- A call that returned, with the blocks allocated that were so before.
abbrev pub Returns : Env → ℕ → List Block → (Outcome → ℕ → Type 0) → Option Outcome → Type 0
Returns env id live Told o =
    (out : Outcome) × (o ≡ some out) × (out.live ≡ live) × Reports env id Told out

-- The value of libusb_control_transfer, and what do_sync_bulk_transfer writes to `transferred`.
abbrev pub ToldByValue : ℕ → Outcome → ℕ → Type 0
ToldByValue id out n = n ≡ (out.shared.ctx.store id).actual_length

abbrev pub ToldAside : ℕ → Outcome → ℕ → Type 0
ToldAside id out n = (n ≡ 0) × (out.transferred ≡ some (out.shared.ctx.store id).actual_length)

by_test :
    {env : Env} {id : ℕ} {live : List Block} {Told : Outcome → ℕ → Type 0} {x y : Option Outcome}
    (b : Bool)
    → Returns env id live Told x
    → Returns env id live Told y
    → Returns env id live Told (if b then x else y)
by_test true p q = p
by_test false p q = q

refused-Returns :
    (env : Env) (id : ℕ) (x : Error) (bytes : List ℕ) (live : List Block) (sh : Shared)
    (Told : Outcome → ℕ → Type 0)
    → Returns env id live Told (refused x bytes live sh)
refused-Returns env id x bytes live sh Told = (_, refl, refl, tt)

conclude-Returns :
    (env : Env) (id : ℕ) (live : List Block) (Told : Outcome → ℕ → Type 0)
    (finish : Shared → Outcome) (c : Context) (start : Shared) (o : Option Shared)
    → submit_transfer env.submission id c ≡ (ok tt, start.ctx)
    → start.completed ≡ false
    → IsOver env id 0 start o
    → ((done : Shared)
        → Waited env id done
        → ((finish done).live ≡ live) × Reports env id Told (finish done))
    → Returns env id live Told (conclude finish o)
conclude-Returns env id live Told finish c start o p q (m, e, w) k =
    let done = after_rounds m env id 0 start in
    let (a, b) = k done (c, start, m, p, q, refl, w) in rw e (finish done, refl, a, b)

-- From the submission on, if what follows the wait is as it should be.
run-Returns :
    (fuel : ℕ) (env : Env) (fb : Bool) (id n : ℕ) (bytes : List ℕ) (live live' : List Block)
    (Told : Outcome → ℕ → Type 0) (finish : Shared → Outcome) (sh : Shared)
    → ((s : Shared) → (env.handle_events n s).1.completed ≡ true)
    → n + 1 < fuel
    → free_transfer fb live' ≡ live
    → sh.completed ≡ false
    → ((done : Shared)
        → Waited env id done
        → ((finish done).live ≡ live) × Reports env id Told (finish done))
    → Returns env id live Told (run fuel env fb id bytes live' finish sh)
run-Returns fuel env fb id n bytes live live' Told finish sh h l e z k =
    by_submission (submit_transfer env.submission id sh.ctx) refl
  where
    by_submission :
        (p : Result (Unit {0}) × Context)
        → submit_transfer env.submission id sh.ctx ≡ p
        → Returns env id live Told (elim p.0 [
          | err x ↦ some (record {
            r = err x;
            shared = record sh { ctx = p.1 };
            bytes = bytes;
            transferred = none;
            live = free_transfer fb live';
          })
          | ok u ↦ conclude finish (wait_loop fuel env id 0 (record sh { ctx = p.1 }))
        ])
    by_submission (err x, ctx) w = (_, refl, e, tt)
    by_submission (ok u, ctx) w =
        conclude-Returns env id live Told finish sh.ctx (record sh { ctx = ctx }) _ w z
          (wait_loop-IsOver n fuel env id 0 n (record sh { ctx = ctx }) h (omega arith) l) k

-- `libusb_control_transfer` returns, if some round of event handling completes the transfer at the
-- latest, whatever is refused or fails before; then the transfer and the buffer that it allocated are
-- freed, and if it returns a number, the transfer was completed and moved that many bytes.
control_transfer-Returns :
    (fuel n : ℕ) (env : Env) (q : Request) (s : Setup) (bytes : List ℕ) (sh : Shared)
    (live : List Block)
    → ((sh : Shared) → (env.handle_events n sh).1.completed ≡ true)
    → n + 1 < fuel
    → Returns env q.id live (ToldByValue q.id) (control_transfer fuel env q s bytes sh live)
unfolding control_transfer
control_transfer-Returns fuel n env q s bytes sh live h l =
    by_test env.handling_events (refused-Returns env q.id busy bytes live sh _) (
      by_test (not env.transfer_granted) (refused-Returns env q.id no_mem bytes live sh _) (
        by_test (not env.buffer_granted) (refused-Returns env q.id no_mem bytes live sh _) (
          run-Returns fuel env true q.id n bytes live (a_buffer ∷ a_transfer ∷ live) _ _ _ h l refl
            refl
            (λ done c. (
              refl,
              told env q.id (ToldByValue q.id)
                  (finish_control q.id (is_in s) bytes (a_buffer ∷ a_transfer ∷ live) done) _
                  (λ m e. let (a, b) = result_of-ok _ m _ e in (c, a, sym b)),
            )))))

-- `do_sync_bulk_transfer` likewise: it returns, leaves nothing allocated, and if it returns a number
-- that is 0, the transfer was completed, and the number of bytes it moved is written to `transferred`.
do_sync_bulk_transfer-Returns :
    (fuel n : ℕ) (env : Env) (q : Request) (length : ℕ) (bytes : List ℕ) (sh : Shared)
    (live : List Block)
    → ((sh : Shared) → (env.handle_events n sh).1.completed ≡ true)
    → n + 1 < fuel
    → Returns env q.id live (ToldAside q.id) (do_sync_bulk_transfer fuel env q length bytes sh live)
unfolding do_sync_bulk_transfer
do_sync_bulk_transfer-Returns fuel n env q length bytes sh live h l =
    by_test env.handling_events (refused-Returns env q.id busy bytes live sh _) (
      by_test (not env.transfer_granted) (refused-Returns env q.id no_mem bytes live sh _) (
        run-Returns fuel env false q.id n bytes live (a_transfer ∷ live) (ToldAside q.id)
          (finish_bulk q.id (a_transfer ∷ live)) _ h l refl refl
          (λ done c. (
            refl,
            told env q.id (ToldAside q.id) (finish_bulk q.id (a_transfer ∷ live) done) _
                (λ m e. let (a, b) = result_of-ok _ m _ e in (c, a, (sym b, refl))),
          ))))

-- `libusb_control_transfer` and `do_sync_bulk_transfer` return, if some round of event handling, the
-- one numbered `n`, completes the transfer at the latest, whatever is refused or fails before and
-- whatever errors the earlier rounds return; the wait takes at most one check for each round up to that
-- one, and one more. Then what the call allocated is freed. If one of them returns a number, then the
-- submission had succeeded with the transfer not completed yet, event handling was run from there up to
-- the first round that completed the transfer and no further, and the transfer's status behind that
-- round is that of a completed one. The number is that of the bytes moved for
-- `libusb_control_transfer`; it is 0 for `do_sync_bulk_transfer`, which writes the number of bytes moved
-- to `transferred`.
pub synchronous_calls-Returns :
    (fuel n : ℕ) (env : Env) (q : Request) (s : Setup) (length : ℕ) (bytes : List ℕ) (sh : Shared)
    (live : List Block)
    → ((sh : Shared) → (env.handle_events n sh).1.completed ≡ true)
    → n + 1 < fuel
    → Returns env q.id live (ToldByValue q.id) (control_transfer fuel env q s bytes sh live)
      × Returns env q.id live
          (ToldAside q.id)
          (do_sync_bulk_transfer fuel env q length bytes sh live)
synchronous_calls-Returns fuel n env q s length bytes sh live h l = (
  control_transfer-Returns fuel n env q s bytes sh live h l,
  do_sync_bulk_transfer-Returns fuel n env q length bytes sh live h l,
)
