-- ===== src/Descriptor/Bos.antt =====
-- The Binary Device Object Store: `parse_bos`, `libusb_get_bos_descriptor` and
-- `libusb_free_bos_descriptor` of libusb/libusb/descriptor.c.
pub mod Accounts
pub mod Capability
use zerousb.Prelude.{
  ℕ, zero, suc, ◌+◌, ◌-◌, not, Bool, true, false, Option, none, some, List, [], ◌∷◌, Outcome, ret,
  ◌>>=◌, ltb, if◌then◌else◌, length, take, ◌==◌, replicate, min, ◌++◌,
}
use zerousb.Usb.{Error, io, no_mem, Result, ok, err, dt_bos, dt_device_capability}
use zerousb.Descriptor.Format.{Letter, byte, word, Endian, bus, Writes, parse_descriptor, field_at}
use zerousb.Descriptor.Cursor.{Cursor, advance}
use zerousb.Descriptor.Heap.{Grants, Heap, malloc, free, copy}

-- Each capability is a block of its own, of as many bytes as its bLength; the pointers behind those
-- are NULL, as calloc leaves them.
pub record Bos : Type 0 where
  pub b_length : ℕ
  pub b_descriptor_type : ℕ
  pub w_total_length : ℕ
  pub b_num_device_caps : ℕ
  pub dev_capability : List (List ℕ)

-- "bbwb"
abbrev pub bos_format : List Letter
bos_format = byte ∷ byte ∷ word ∷ byte ∷ []

abbrev pub store_bos : Writes → Bos
store_bos ws = record {
  b_length = field_at ws 0 0;
  b_descriptor_type = field_at ws 1 0;
  w_total_length = field_at ws 2 0;
  b_num_device_caps = field_at ws 4 0;
  dev_capability = [];
}

-- free(NULL) does nothing, so only the capabilities that are there count.
unfoldable pub free_bos_descriptor : Option Bos → Heap → Heap
free_bos_descriptor none h = h
free_bos_descriptor (some bos) h =
    free 1 (free (length (take bos.b_num_device_caps bos.dev_capability)) h)

-- The tests on a capability's first bytes, in their order: how the loop goes on.
pub data Check : Type 0 where
  stop invalid good : Check

abbrev pub check_cap : ℕ → ℕ → ℕ → Check
check_cap len t size =
    if not (t == dt_device_capability)
    then stop
    else if ltb len 3
    then invalid
    else if ltb size len
    then stop
    else good

-- How the loop ends: an error or none, the capabilities, and the heap.
abbrev pub CapsResult : Type 0
CapsResult = Option Error × List (List ℕ) × Heap

abbrev pub add_cap : List ℕ → CapsResult → CapsResult
add_cap cap (x, caps, h) = (x, cap ∷ caps, h)

-- What follows the tests on a capability of `len` bytes; `rest` is the loop's next round.
unfoldable pub after_check :
    Check → Grants → ℕ → List ℕ → Heap → (Heap → Outcome CapsResult) → Outcome CapsResult
after_check stop g len buffer h rest = ret (none, [], h)
after_check invalid g len buffer h rest = ret (some io, [], h)
after_check good g len buffer h rest =
    let (granted, h') = malloc g h in
    if not granted
    then ret (some no_mem, [], h')
    else (do cap ← copy len buffer; r ← rest h'; ret (add_cap cap r))

-- for (i = 0; i < bos_header.bNumDeviceCaps; i++) { ... } with `n` capabilities left.
unfoldable pub caps_loop : ℕ → Grants → Cursor → Endian → Heap → Outcome CapsResult
caps_loop zero g c e h = ret (none, [], h)
caps_loop (suc n) g c e h = if ltb c.size 3 then ret (none, [], h) else (do
  (ws, k) ← parse_descriptor (replicate 3 byte) c.buffer 0 e
  let len = field_at ws 0 0
  after_check (check_cap len (field_at ws 1 0) c.size) g len c.buffer h
      (λ h'. caps_loop n g (advance len c) e h'))

-- _bos->bNumDeviceCaps = i; or libusb_free_bos_descriptor(_bos), where bNumDeviceCaps is the
-- device's number still.
unfoldable pub finish_bos : Bos → CapsResult → Result Bos × Heap
unfolding free_bos_descriptor
finish_bos bos (none, caps, h) =
    (ok (record bos { b_num_device_caps = length caps; dev_capability = caps }), h)
finish_bos bos (some x, caps, h) =
    (err x, free_bos_descriptor (some (record bos { dev_capability = caps })) h)

abbrev pub header_is_good : Bos → ℕ → Bool
header_is_good bos size =
    if not (bos.b_descriptor_type == dt_bos)
    then false
    else if ltb bos.b_length 5
    then false
    else not (ltb size bos.b_length)

unfoldable pub parse_bos : Grants → Cursor → Endian → Heap → Outcome (Result Bos × Heap)
unfolding caps_loop after_check finish_bos
parse_bos g c e h = if ltb c.size 5 then ret (err io, h) else (do
  (ws, n) ← parse_descriptor bos_format c.buffer 0 e
  let bos = store_bos ws
  let (granted, h') = malloc g h
  if not (header_is_good bos c.size)
      then ret (err io, h)
      else if not granted
      then ret (err no_mem, h')
      else (do
        r ← caps_loop bos.b_num_device_caps g (advance bos.b_length c) e h'
        ret (finish_bos bos r)))

-- A request for at most `n` bytes of the descriptor: an error, or the bytes that came.
abbrev pub Request : Type 0
Request = ℕ → Result (List ℕ)

-- What is done with the answer to the second request, in the block of wTotalLength bytes, which is
-- zero behind the answer; the block is freed.
unfoldable pub second_answer : Grants → ℕ → Result (List ℕ) → Heap → Outcome (Result Bos × Heap)
unfolding parse_bos
second_answer g total (err x) h = ret (err x, free 1 h)
second_answer g total (ok bytes) h = do
  (r, h') ←
      parse_bos g
        (record { buffer = bytes ++ replicate (total - length bytes) 0; size = length bytes }) bus h
  ret (r, free 1 h')

-- libusb_get_bos_descriptor: `request` is libusb_get_descriptor with the type LIBUSB_DT_BOS. The
-- first five bytes are in an array of their own.
unfoldable pub get_bos_descriptor : Request → Request → Grants → Heap → Outcome (Result Bos × Heap)
unfolding second_answer
get_bos_descriptor first second g h = elim (first 5) [
  | err x ↦ ret (err x, h)
  | ok bytes ↦ if ltb (length bytes) 5 then ret (err io, h) else (do
    (ws, n) ← parse_descriptor bos_format bytes 0 bus
    let total = field_at ws 2 0
    let (granted, h') = malloc g h
    if not granted then ret (err no_mem, h') else second_answer g total (second total) h')
]
