-- ===== src/Descriptor/Endpoint.antt =====
-- `struct libusb_endpoint_descriptor`, `clear_endpoint` and `parse_endpoint` of
-- libusb/libusb/descriptor.c.
pub mod Safety
use zerousb.Prelude.{
  ℕ, zero, suc, ◌+◌, ◌-◌, ◌≤◌, ◌<◌, ◌≡◌, refl, not, Bool, true, false, List, [], ◌∷◌, Outcome, ret,
  fault, ◌>>=◌, arith, ltb, leb, if◌then◌else◌, length, take, drop, ◌==◌,
}
use zerousb.Usb.{Error, io, no_mem, Result, ok, err, dt_endpoint}
use zerousb.Descriptor.Format.{Letter, byte, word, Endian, Writes, parse_descriptor, field_at}
use zerousb.Descriptor.Cursor.{Cursor, advance, header, Skip, stopped, short, bad_length, skip}
use zerousb.Descriptor.Heap.{Grants, Heap, malloc, free, block, copy}

-- `extra` is NULL when empty; extra_length is its length.
pub record Endpoint : Type 0 where
  pub b_length : ℕ
  pub b_descriptor_type : ℕ
  pub b_endpoint_address : ℕ
  pub bm_attributes : ℕ
  pub w_max_packet_size : ℕ
  pub b_interval : ℕ
  pub b_refresh : ℕ
  pub b_synch_address : ℕ
  pub extra : List ℕ

-- As calloc leaves it.
abbrev pub zero_endpoint : Endpoint
zero_endpoint = record {
  b_length = 0;
  b_descriptor_type = 0;
  b_endpoint_address = 0;
  bm_attributes = 0;
  w_max_packet_size = 0;
  b_interval = 0;
  b_refresh = 0;
  b_synch_address = 0;
  extra = [];
}

-- The fields at their offsets in the structure; what is not written keeps its value.
abbrev pub store_endpoint : Writes → Endpoint → Endpoint
store_endpoint ws ep = record ep {
  b_length = field_at ws 0 ep.b_length;
  b_descriptor_type = field_at ws 1 ep.b_descriptor_type;
  b_endpoint_address = field_at ws 2 ep.b_endpoint_address;
  bm_attributes = field_at ws 3 ep.bm_attributes;
  w_max_packet_size = field_at ws 4 ep.w_max_packet_size;
  b_interval = field_at ws 6 ep.b_interval;
  b_refresh = field_at ws 7 ep.b_refresh;
  b_synch_address = field_at ws 8 ep.b_synch_address;
}

abbrev pub clear_endpoint : Endpoint → Heap → Heap
clear_endpoint ep h = free (block ep.extra) h

-- "bbbbwbbb" and "bbbbwb"
abbrev pub audio_format : List Letter
audio_format = byte ∷ byte ∷ byte ∷ byte ∷ word ∷ byte ∷ byte ∷ byte ∷ []

abbrev pub endpoint_format : List Letter
endpoint_format = byte ∷ byte ∷ byte ∷ byte ∷ word ∷ byte ∷ []

-- What `parse_endpoint` leaves: its result, the endpoint and the heap.
abbrev pub EndpointResult : Type 0
EndpointResult = Result ℕ × Endpoint × Heap

-- "Copy any unknown descriptors into a storage area for drivers to later parse": `n` bytes were
-- skipped from the cursor on, after a descriptor of `len` bytes.
unfoldable pub endpoint_extra :
    Grants → ℕ → Endpoint → Cursor → Skip → Heap → Outcome EndpointResult
endpoint_extra g len ep c bad_length h = ret (err io, ep, h)
endpoint_extra g len ep c (short n) h = ret (ok (len + n), ep, h)
endpoint_extra g len ep c (stopped n) h =
    if n == 0
    then ret (ok len, record ep { extra = [] }, h)
    else (let (granted, h') = malloc g h in
        if granted
        then (do bytes ← copy n c.buffer; ret (ok (len + n), record ep { extra = bytes }, h'))
        else ret (err no_mem, record ep { extra = [] }, h'))

-- The endpoint's own fields, in the longer or the shorter format.
unfoldable pub endpoint_fields : ℕ → Endpoint → Cursor → Endian → Outcome (Result Endpoint)
endpoint_fields len ep c e =
    if leb 9 len
    then (do (ws, n) ← parse_descriptor audio_format c.buffer 0 e; ret (ok (store_endpoint ws ep)))
    else if leb 7 len
    then (do
      (ws, n) ← parse_descriptor endpoint_format c.buffer 0 e
      ret (ok (store_endpoint ws ep)))
    else ret (err io)

-- With the header read.
unfoldable pub endpoint_body :
    Grants → ℕ → ℕ → Endpoint → Cursor → Endian → Heap → Outcome EndpointResult
unfolding endpoint_fields endpoint_extra
endpoint_body g len t ep c e h =
    if not (t == dt_endpoint)
    then ret (ok 0, ep, h)
    else if ltb c.size len
    then ret (ok 0, ep, h)
    else (do
      fields ← endpoint_fields len ep c e
      elim fields [
        | err x ↦ ret (err x, ep, h)
        | ok ep' ↦ do s ← skip (advance len c); endpoint_extra g len ep' (advance len c) s h
      ])

unfoldable pub parse_endpoint : Grants → Endpoint → Cursor → Endian → Heap → Outcome EndpointResult
unfolding endpoint_body header skip
parse_endpoint g ep c e h =
    if ltb c.size 2
    then ret (err io, ep, h)
    else (do (len, t) ← header c; endpoint_body g len t ep c e h)
