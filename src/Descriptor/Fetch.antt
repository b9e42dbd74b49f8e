-- ===== src/Descriptor/Fetch.antt =====
-- How libusb/libusb/descriptor.c asks the backend for a configuration:
-- `libusb_get_active_config_descriptor`, `libusb_get_config_descriptor`,
-- `usbi_get_config_index_by_value` and `libusb_get_config_descriptor_by_value`.
pub mod Memory
pub mod Index
use zerousb.Prelude.{
  ℕ, zero, suc, ◌-◌, not, Bool, Option, none, some, List, [], ◌∷◌, ◌++◌, Outcome, ret, ◌>>=◌, ltb,
  leb, if◌then◌else◌, length, replicate, take, get_or, ◌==◌,
}
use zerousb.Usb.{Error, io, no_mem, not_found, Result, ok, err}
use zerousb.Descriptor.Format.{Letter, byte, word, Endian, parse_descriptor, field_at}
use zerousb.Descriptor.Heap.{Grants, Heap, malloc, free}
use zerousb.Descriptor.Config.{Config, raw_desc_to_config}

-- What a backend answers when it is asked for at most so many bytes: an error, or the bytes that it
-- puts into the buffer; and whether their words are in the CPU's own byte order.
abbrev pub Request : Type 0
Request = ℕ → Result (List ℕ) × Endian

abbrev pub head_format : List Letter
head_format = byte ∷ byte ∷ word ∷ []

-- The answer to the second request, in a block of wTotalLength bytes, which is freed. The backend puts
-- no more bytes there than it is asked for.
unfoldable pub second_answer :
    Grants → ℕ → Result (List ℕ) × Endian → Heap → Outcome (Result Config × Heap)
second_answer g total (err x, e) h = ret (err x, free 1 h)
second_answer g total (ok answer, e) h = do
  let bytes = take total answer
  (r, h') ←
      raw_desc_to_config g
        (record { buffer = bytes ++ replicate (total - length bytes) 0; size = length bytes }) e h
  ret (r, free 1 h')

-- The answer to the first request, for the nine bytes of a configuration descriptor.
unfoldable pub first_answer :
    Grants → Request → Result (List ℕ) × Endian → Heap → Outcome (Result Config × Heap)
unfolding second_answer
first_answer g request (err x, e) h = ret (err x, h)
first_answer g request (ok bytes, e) h = if ltb (length bytes) 9 then ret (err io, h) else (do
  (ws, n) ← parse_descriptor head_format bytes 0 e
  let total = field_at ws 2 0
  let (granted, h') = malloc g h
  if not granted then ret (err no_mem, h') else second_answer g total (request total) h')

-- libusb_get_active_config_descriptor, of the backend's function of that name.
unfoldable pub get_active_config_descriptor :
    Grants → Request → Heap → Outcome (Result Config × Heap)
unfolding first_answer
get_active_config_descriptor g request h = first_answer g request (request 9) h

-- libusb_get_config_descriptor, of the backend's requests for each index.
unfoldable pub get_config_descriptor :
    Grants → ℕ → (ℕ → Request) → ℕ → Heap → Outcome (Result Config × Heap)
unfolding first_answer
get_config_descriptor g num_configurations request index h =
    if leb num_configurations index
    then ret (err not_found, h)
    else first_answer g (request index) (request index 9) h

-- for (i = 0; i < dev->num_configurations; i++) with `n` left. tmp[5] is bConfigurationValue, if the
-- backend gave six bytes; if not, it is what the round finds there, `garbage i`.
unfoldable pub index_loop : (ℕ → Request) → (ℕ → ℕ) → ℕ → ℕ → ℕ → Result (Option ℕ)
index_loop request garbage value zero i = ok none
index_loop request garbage value (suc n) i =
    let rest = index_loop request garbage value n (suc i) in
    elim (request i 6).0 [
      | err x ↦ err x
      | ok bytes ↦ if get_or bytes 5 (garbage i) == value then ok (some i) else rest
    ]

unfoldable pub get_config_index_by_value : (ℕ → Request) → (ℕ → ℕ) → ℕ → ℕ → Result (Option ℕ)
unfolding index_loop
get_config_index_by_value request garbage num_configurations value =
    index_loop request garbage value num_configurations 0

-- libusb_get_config_descriptor_by_value. `direct` is the backend's function of that name, if it has
-- one; its bytes stay the backend's.
unfoldable pub get_config_descriptor_by_value :
    Grants
    → Option (ℕ → Result (List ℕ) × Endian)
    → (ℕ → Request)
    → (ℕ → ℕ)
    → ℕ
    → ℕ
    → Heap
    → Outcome (Result Config × Heap)
unfolding get_config_index_by_value get_config_descriptor
get_config_descriptor_by_value g (some direct) request garbage num_configurations value h =
    elim (direct value).0 [
      | err x ↦ ret (err x, h)
      | ok bytes ↦
          raw_desc_to_config g (record { buffer = bytes; size = length bytes }) (direct value).1 h
    ]
get_config_descriptor_by_value g none request garbage num_configurations value h =
    elim (get_config_index_by_value request garbage num_configurations value) [
      | err x ↦ ret (err x, h)
      | ok none ↦ ret (err not_found, h)
      | ok (some index) ↦ get_config_descriptor g num_configurations request index h
    ]
