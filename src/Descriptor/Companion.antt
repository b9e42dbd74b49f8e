-- ===== src/Descriptor/Companion.antt =====
-- `libusb_get_ss_endpoint_companion_descriptor` of libusb/libusb/descriptor.c: the search for the
-- SuperSpeed companion among the extra data of an endpoint.
pub mod Search
use zerousb.Prelude.{
  ℕ, zero, suc, ◌||◌, not, List, [], ◌∷◌, replicate, ◌++◌, Outcome, ret, fault, out_of_fuel, ◌>>=◌,
  ltb, if◌then◌else◌, length, ◌==◌,
}
use zerousb.Usb.{Error, io, not_found, no_mem, Result, ok, err, dt_ss_endpoint_companion}
use zerousb.Descriptor.Format.{Letter, byte, word, bus, Writes, parse_descriptor, field_at}
use zerousb.Descriptor.Cursor.{Cursor, advance, header}
use zerousb.Descriptor.Heap.{Grants, Heap, malloc, free}
use zerousb.Descriptor.Endpoint.{Endpoint}

-- struct libusb_ss_endpoint_companion_descriptor
pub record Companion : Type 0 where
  pub b_length : ℕ
  pub b_descriptor_type : ℕ
  pub b_max_burst : ℕ
  pub bm_attributes : ℕ
  pub w_bytes_per_interval : ℕ

-- "bbbbw"
abbrev pub companion_format : List Letter
companion_format = replicate 4 byte ++ word ∷ []

abbrev pub store_companion : Writes → Companion
store_companion ws = record {
  b_length = field_at ws 0 0;
  b_descriptor_type = field_at ws 1 0;
  b_max_burst = field_at ws 2 0;
  bm_attributes = field_at ws 3 0;
  w_bytes_per_interval = field_at ws 4 0;
}

abbrev pub CompanionResult : Type 0
CompanionResult = Result Companion × Heap

-- What is done with a companion descriptor of `len` bytes.
unfoldable pub take_companion : Grants → ℕ → Cursor → Heap → Outcome CompanionResult
take_companion g len c h =
    if ltb len 6
    then ret (err io, h)
    else (let (granted, h') = malloc g h in
        if not granted then ret (err no_mem, h') else (do
          (ws, n) ← parse_descriptor companion_format c.buffer 0 bus
          ret (ok (store_companion ws), h')))

-- while (size >= DESC_HEADER_LENGTH) { ... }
unfoldable pub companion_loop : ℕ → Grants → Cursor → Heap → Outcome CompanionResult
companion_loop zero g c h = fault out_of_fuel
companion_loop (suc f) g c h = if ltb c.size 2 then ret (err not_found, h) else (do
  (len, t) ← header c
  let rest = companion_loop f g (advance len c) h
  if ltb len 2 || ltb c.size len
      then ret (err io, h)
      else if not (t == dt_ss_endpoint_companion)
      then rest
      else take_companion g len c h)

-- Each round but the last lowers the size by two at least.
unfoldable pub get_ss_endpoint_companion : Grants → Endpoint → Heap → Outcome CompanionResult
unfolding companion_loop
get_ss_endpoint_companion g ep h =
    companion_loop (suc (length ep.extra)) g (record { buffer = ep.extra; size = length ep.extra })
      h
