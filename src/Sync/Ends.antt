-- ===== src/Sync/Ends.antt =====
-- The wait loop of libusb/libusb/sync.c ends.
use zerousb.Prelude.{
  ℕ, zero, suc, ◌+◌, ◌≡◌, ◌<◌, refl, ◌∙◌, Bool, true, false, Option, some, if◌then◌else◌, arith,
}
use zerousb.Usb.{Success, Result}
use zerousb.Sync.Wait.{Shared, Env, after_events, wait_loop}

after_events-completed :
    (c : Result (Unit {0})) (id : ℕ) (r : Result Success) (sh : Shared)
    → (after_events c id r sh).completed ≡ sh.completed
after_events-completed c id r sh = ground arith

-- Round k of the waiting, and the `m` rounds from round k on.
abbrev pub round : Env → ℕ → ℕ → Shared → Shared
round env id k sh =
    let (r, sh') = env.handle_events k sh in after_events (env.cancellation k) id r sh'

abbrev pub after_rounds : ℕ → Env → ℕ → ℕ → Shared → Shared
after_rounds zero env id k sh = sh
after_rounds (suc m) env id k sh = after_rounds m env id (k + 1) (round env id k sh)

-- `m` rounds complete the transfer, and fewer do not.
abbrev pub Completes : ℕ → Env → ℕ → ℕ → Shared → Type 0
Completes m env id k sh =
    ((after_rounds m env id k sh).completed ≡ true)
    × ((j : ℕ) → j < m → (after_rounds j env id k sh).completed ≡ false)

-- The loop has ended behind the round that completed the transfer.
abbrev pub IsOver : Env → ℕ → ℕ → Shared → Option Shared → Type 0
IsOver env id k sh r = (m : ℕ) × (r ≡ some (after_rounds m env id k sh)) × Completes m env id k sh

if-IsOver :
    (env : Env) (id k : ℕ) (b : Bool) (sh : Shared) (rest : Option Shared)
    → sh.completed ≡ b
    → (b ≡ false → IsOver env id (k + 1) (round env id k sh) rest)
    → IsOver env id k sh (if b then some sh else rest)
if-IsOver env id k true sh rest e f = (0, refl, (e, λ j l. absurd (omega (arith, l))))
if-IsOver env id k false sh rest e f =
    let (m, r, (c, u)) = f refl in (suc m, r, (c, λ j l. before j m l u))
  where
    before :
        (j m : ℕ)
        → j < suc m
        → ((i : ℕ) → i < m → (after_rounds i env id (k + 1) (round env id k sh)).completed ≡ false)
        → (after_rounds j env id k sh).completed ≡ false
    before zero m l u = e
    before (suc j) m l u = u j (omega (arith, l))

completed-IsOver :
    (f : ℕ) (env : Env) (id k : ℕ) (sh : Shared)
    → 0 < f
    → sh.completed ≡ true
    → IsOver env id k sh (wait_loop f env id k sh)
unfolding wait_loop
completed-IsOver zero env id k sh l h = absurd (omega arith)
completed-IsOver (suc f) env id k sh l h =
    if-IsOver env id k sh.completed sh _ refl (λ e. absurd (true≢false h e))
  where
    true≢false : {b : Bool} → b ≡ true → b ≡ false → ⊥
    true≢false e g = cc

-- `sync_transfer_wait_for_completion` waits until the transfer is completed and ends then, behind the
-- first round that completes it, if some round of event handling, the one numbered `n`, completes it at
-- the latest: whatever errors the rounds before it return, interruptions included, and whatever the
-- cancellations that it tries on errors answer. It takes at most one check for each round up to that
-- one, and one more.
pub wait_loop-IsOver :
    (d : ℕ) (f : ℕ) (env : Env) (id k n : ℕ) (sh : Shared)
    → ((s : Shared) → (env.handle_events n s).1.completed ≡ true)
    → k + d ≡ n
    → d + 1 < f
    → IsOver env id k sh (wait_loop f env id k sh)
unfolding wait_loop
wait_loop-IsOver d zero env id k n sh h e l = absurd (omega arith)
wait_loop-IsOver zero (suc f) env id k n sh h e l =
    let same : k ≡ n = omega arith in
    let (r, sh') = env.handle_events k sh in
    if-IsOver env id k sh.completed sh _ refl (λ u.
      completed-IsOver f env id (k + 1) _ (omega arith)
        (after_events-completed (env.cancellation k) id r sh' ∙ rw same (h sh)))
wait_loop-IsOver (suc d) (suc f) env id k n sh h e l =
    if-IsOver env id k sh.completed sh _ refl
      (λ u. wait_loop-IsOver d f env id (k + 1) n _ h (omega arith) (omega arith))
