-- ===== src/Io/Disconnect.antt =====
-- `usbi_handle_disconnect` of libusb/libusb/io.c: the transfers of an unplugged device end. The backend's
-- `clear_transfer_priv` acts on data of its own.
pub mod Drained
use zerousb.Prelude.{
  ℕ, zero, suc, Bool, true, false, ◌&&◌, Option, none, some, List, [], ◌∷◌, if◌then◌else◌, ◌==◌,
}
use zerousb.Io.Transfer.{Transfer, Context, no_device}
use zerousb.Io.Lifecycle.{handle_transfer_completion}

-- The first listed transfer of the handle that is in flight.
unfoldable pub to_cancel : ℕ → (ℕ → Transfer) → List ℕ → Option ℕ
to_cancel h st [] = none
to_cancel h st (cur ∷ rest) =
    let rest' = to_cancel h st rest in
    if (st cur).dev_handle == h && (st cur).in_flight then some cur else rest'

-- while (1): a round for each unit of fuel, and nothing if the fuel runs out.
unfoldable pub handle_disconnect : ℕ → Bool → (ℕ → Context → Context) → ℕ → Context → Option Context
unfolding to_cancel handle_transfer_completion
handle_disconnect zero works callback h ctx = none
handle_disconnect (suc f) works callback h ctx = elim (to_cancel h ctx.store ctx.flying) [
  | none ↦ some ctx
  | some id ↦
      handle_disconnect f works callback h
        (handle_transfer_completion works (callback id) id no_device ctx).1
]
