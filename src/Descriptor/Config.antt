-- ===== src/Descriptor/Config.antt =====
-- `struct libusb_config_descriptor`, `clear_configuration`, `parse_configuration`,
-- `raw_desc_to_config` and `libusb_free_config_descriptor` of libusb/libusb/descriptor.c.
pub mod Ownership
pub mod Memory
use zerousb.Prelude.{
  ℕ, zero, suc, ◌+◌, ◌-◌, not, Bool, true, false, ◌||◌, Option, none, some, List, [], ◌∷◌, ◌++◌,
  Outcome, ret, fault, use_after_free, null_deref, out_of_fuel, ◌>>=◌, ltb, if◌then◌else◌, take,
  ◌==◌, replicate,
}
use zerousb.Usb.{Error, io, no_mem, Result, ok, err, dt_config, max_interfaces}
use zerousb.Descriptor.Format.{Letter, byte, word, Endian, bus, Writes, parse_descriptor, field_at}
use zerousb.Descriptor.Cursor.{Cursor, advance, Skip, stopped, short, bad_length, skip}
use zerousb.Descriptor.Heap.{Grants, Heap, malloc, free, block, copy}
use zerousb.Descriptor.Interface.Setting.{Interface, zero_interface, clear_interface}
use zerousb.Descriptor.Interface.Loop.{parse_interface}

-- `interfaces` is NULL or an array; b_num_interfaces says how many of its entries count.
pub record Config : Type 0 where
  pub b_length : ℕ
  pub b_descriptor_type : ℕ
  pub w_total_length : ℕ
  pub b_num_interfaces : ℕ
  pub b_configuration_value : ℕ
  pub i_configuration : ℕ
  pub bm_attributes : ℕ
  pub max_power : ℕ
  pub interfaces : Option (List Interface)
  pub extra : List ℕ

-- "bbwbbbbb"
abbrev pub config_format : List Letter
config_format = byte ∷ byte ∷ word ∷ replicate 5 byte

abbrev pub store_config : Writes → Config
store_config ws = record {
  b_length = field_at ws 0 0;
  b_descriptor_type = field_at ws 1 0;
  w_total_length = field_at ws 2 0;
  b_num_interfaces = field_at ws 4 0;
  b_configuration_value = field_at ws 5 0;
  i_configuration = field_at ws 6 0;
  bm_attributes = field_at ws 7 0;
  max_power = field_at ws 8 0;
  interfaces = none;
  extra = [];
}

-- for (i = 0; i < config->bNumInterfaces; i++) clear_interface(config->interface + i);
unfoldable pub clear_interfaces : List Interface → Heap → Outcome Heap
clear_interfaces [] h = ret h
clear_interfaces (usb ∷ usbs) h = do (usb', h') ← clear_interface usb h; clear_interfaces usbs h'

-- `free(NULL)` does nothing, so the array is freed only if there is one.
unfoldable pub clear_configuration : Config → Heap → Outcome Heap
clear_configuration config h = elim config.interfaces [
  | none ↦ ret (free (block config.extra) h)
  | some usbs ↦ do
    h' ← clear_interfaces (take config.b_num_interfaces usbs) h
    ret (free (block config.extra) (free 1 h'))
]

-- What the loop over the interfaces leaves: an error, or the interfaces parsed and the bytes left;
-- `extra`, the array and the heap.
abbrev pub LoopResult : Type 0
LoopResult = Result (ℕ × ℕ) × List ℕ × List Interface × Heap

abbrev pub count_interface : Result (ℕ × ℕ) → Result (ℕ × ℕ)
count_interface (err e) = err e
count_interface (ok (i, left)) = ok (suc i, left)

-- "FIXME: We should realloc and append here": only the first skipped bytes are kept.
unfoldable pub keep_extra : Grants → List ℕ → ℕ → Cursor → Heap → Outcome (Result (List ℕ) × Heap)
keep_extra g [] n c h =
    if n == 0
    then ret (ok [], h)
    else (let (granted, h') = malloc g h in
        if granted then (do bytes ← copy n c.buffer; ret (ok bytes, h')) else ret (err no_mem, h'))
keep_extra g (x ∷ extra) n c h = ret (ok (x ∷ extra), h)

-- How the loop goes on behind `parse_interface`, with `n` entries left after this one.
unfoldable pub after_interface :
    Result ℕ
    → Interface
    → ℕ
    → List ℕ
    → Cursor
    → Heap
    → (ℕ → Outcome LoopResult)
    → Outcome LoopResult
after_interface (err x) usb n extra c h go_on =
    ret (err x, extra, usb ∷ replicate n zero_interface, h)
after_interface (ok k) usb n extra c h go_on =
    if k == 0
    then ret (ok (0, c.size), extra, usb ∷ replicate n zero_interface, h)
    else (do (r, extra', usbs, h') ← go_on k; ret (count_interface r, extra', usb ∷ usbs, h'))

-- How it goes on behind the skipping of class and vendor descriptors.
unfoldable pub after_skip :
    Grants
    → Skip
    → ℕ
    → List ℕ
    → Cursor
    → Endian
    → Heap
    → (List ℕ → Cursor → Heap → Outcome LoopResult)
    → Outcome LoopResult
after_skip g bad_length n extra c e h go_on =
    ret (err io, extra, replicate (suc n) zero_interface, h)
after_skip g (short m) n extra c e h go_on =
    ret (ok (0, c.size - m), extra, replicate (suc n) zero_interface, h)
after_skip g (stopped m) n extra c e h go_on = do
  (kept, h') ← keep_extra g extra m c h
  elim kept [
    | err x ↦ ret (err x, extra, replicate (suc n) zero_interface, h')
    | ok extra' ↦ do
      let c' = advance m c
      (r, usb, h'') ← parse_interface g zero_interface c' e h'
      after_interface r usb n extra' c' h'' (λ k. go_on extra' (advance k c') h'')
  ]

-- for (i = 0; i < config->bNumInterfaces; i++) { ... } with `n` entries left.
unfoldable pub parse_interfaces : Grants → ℕ → List ℕ → Cursor → Endian → Heap → Outcome LoopResult
parse_interfaces g zero extra c e h = ret (ok (0, c.size), extra, [], h)
parse_interfaces g (suc n) extra c e h = do
  s ← skip c
  after_skip g s n extra c e h (λ extra' c' h'. parse_interfaces g n extra' c' e h')

abbrev pub ConfigResult : Type 0
ConfigResult = Result ℕ × Config × Heap

-- err: clear_configuration(config); return r;
unfoldable pub finish_configuration : Config → LoopResult → Outcome ConfigResult
finish_configuration config (err x, extra, usbs, h) = do
  let config' : Config = record config { interfaces = some usbs; extra = extra }
  h' ← clear_configuration config' h
  ret (err x, config', h')
finish_configuration config (ok (i, left), extra, usbs, h) =
    ret (ok left, record config { interfaces = some usbs; extra = extra; b_num_interfaces = i }, h)

-- The checks on the descriptor.
abbrev pub config_is_good : Config → ℕ → Bool
config_is_good config size =
    if not (config.b_descriptor_type == dt_config)
    then false
    else if ltb config.b_length 9
    then false
    else if ltb size config.b_length
    then false
    else not (ltb max_interfaces config.b_num_interfaces)

-- On success the result is the count of bytes left.
unfoldable pub parse_configuration : Grants → Cursor → Endian → Heap → Outcome ConfigResult
parse_configuration g c e h = if ltb c.size 9 then ret (err io, store_config [], h) else (do
  (ws, n) ← parse_descriptor config_format c.buffer 0 e
  let config = store_config ws
  let (granted, h') = malloc g h
  if not (config_is_good config c.size)
      then ret (err io, config, h)
      else if not granted
      then ret (err no_mem, config, h')
      else (do
        r ← parse_interfaces g config.b_num_interfaces [] (advance config.b_length c) e h'
        finish_configuration config r))

-- *config = _config, or free(_config) and the error.
abbrev pub raw_result : ConfigResult → Result Config × Heap
raw_result (err x, config, h) = (err x, free 1 h)
raw_result (ok left, config, h) = (ok config, h)

-- The configuration that it returns has a block of its own, freed on an error.
unfoldable pub raw_desc_to_config : Grants → Cursor → Endian → Heap → Outcome (Result Config × Heap)
raw_desc_to_config g c e h =
    let (granted, h') = malloc g h in
    if not granted
    then ret (err no_mem, h')
    else (do r ← parse_configuration g c e h'; ret (raw_result r))

-- libusb_free_config_descriptor
unfoldable pub free_config_descriptor : Option Config → Heap → Outcome Heap
free_config_descriptor none h = ret h
free_config_descriptor (some config) h = do h' ← clear_configuration config h; ret (free 1 h')
