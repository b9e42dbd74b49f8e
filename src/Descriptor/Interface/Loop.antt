-- ===== src/Descriptor/Interface/Loop.antt =====
-- The loop of `parse_interface` of libusb/libusb/descriptor.c over the settings of an interface.
use zerousb.Prelude.{
  ℕ, zero, suc, ◌+◌, not, Bool, true, false, Option, none, some, [], ◌∷◌, ◌++◌, Outcome, ret, fault,
  out_of_fuel, ◌>>=◌, ltb, if◌then◌else◌, ◌==◌, replicate,
}
use zerousb.Usb.{Error, io, no_mem, Result, ok, err, dt_interface, max_endpoints}
use zerousb.Descriptor.Format.{byte, Endian, bus, parse_descriptor, field_at}
use zerousb.Descriptor.Cursor.{Cursor}
use zerousb.Descriptor.Heap.{Grants, Heap, malloc, free}
use zerousb.Descriptor.Interface.Setting.{
  AltSetting, Interface, clear_interface, dangling, interface_format, items, null, store_alt,
}
use zerousb.Descriptor.Interface.Body.{Body, alt_body, cut, failed, next}

-- altsetting = usbi_reallocf(altsetting, ...): whether it succeeded, the interface and the heap. On
-- failure the old array is freed and the pointer kept.
unfoldable pub grow : Grants → Interface → Heap → Bool × Interface × Heap
grow g usb h = elim usb.altsetting [
  | null ↦
      let (granted, h') = malloc g h in
      if granted then (true, record usb { altsetting = items [] }, h') else (false, usb, h')
  | dangling ↦ (false, usb, h)
  | items alts ↦
      if g h.calls
      then (true, usb, record h { calls = suc h.calls })
      else (false, record usb { altsetting = dangling }, free 1 (record h { calls = suc h.calls }))
]

-- usb_interface->num_altsetting++ behind the new entry.
abbrev pub add_alt : AltSetting → Interface → Interface
add_alt alt usb = elim usb.altsetting [
  | items alts ↦ record {
    altsetting = items (alts ++ alt ∷ []);
    num_altsetting = suc usb.num_altsetting;
  }
  | _ ↦ usb
]

abbrev pub InterfaceResult : Type 0
InterfaceResult = Result ℕ × Interface × Heap

-- err: clear_interface(usb_interface); return r;
unfoldable pub fail_interface : Error → Interface → Heap → Outcome InterfaceResult
unfolding clear_interface
fail_interface x usb h = do (usb', h') ← clear_interface usb h; ret (err x, usb', h')

-- "We check to see if it's an alternate to this one": bDescriptorType and bInterfaceNumber of the
-- next descriptor are read only if the size holds an interface descriptor.
unfoldable pub is_alternate : Cursor → ℕ → Outcome Bool
unfolding parse_descriptor
is_alternate c number = if ltb c.size 9 then ret false else (do
  (ws, n) ← parse_descriptor (replicate 3 byte) c.buffer 0 bus
  ret (if not (field_at ws 1 0 == dt_interface) then false else field_at ws 2 0 == number))

-- interface_number, which is -1 before the first setting.
abbrev pub first_number : Option ℕ → ℕ → ℕ
first_number none n = n
first_number (some m) n = m

-- The checks on the descriptor just read.
pub data Check : Type 0 where
  unexpected invalid good : Check

abbrev pub check_alt : AltSetting → ℕ → Check
check_alt alt size =
    if not (alt.b_descriptor_type == dt_interface)
    then unexpected
    else if ltb alt.b_length 9
    then invalid
    else if ltb size alt.b_length
    then unexpected
    else if ltb max_endpoints alt.b_num_endpoints
    then invalid
    else good

-- How the loop goes on after the body, with `parsed` bytes consumed before it.
unfoldable pub after_body :
    Body → ℕ → Interface → Heap → (ℕ → Cursor → Outcome InterfaceResult) → Outcome InterfaceResult
unfolding fail_interface
after_body (failed x) parsed usb h go_on = fail_interface x usb h
after_body (cut n) parsed usb h go_on = ret (ok (parsed + n), usb, h)
after_body (next n c) parsed usb h go_on = go_on n c

-- The round of the loop behind the reading of the descriptor. `again` makes the next round, from the
-- interface, its number, the bytes consumed, the cursor and the heap.
unfoldable pub alt_round :
    Grants
    → AltSetting
    → Interface
    → Option ℕ
    → ℕ
    → Cursor
    → Endian
    → Heap
    → (Interface → ℕ → ℕ → Cursor → Heap → Outcome InterfaceResult)
    → Outcome InterfaceResult
unfolding fail_interface alt_body is_alternate after_body
alt_round g alt usb number parsed c e h again = elim (check_alt alt c.size) [
  | unexpected ↦ ret (ok parsed, usb, h)
  | invalid ↦ fail_interface io usb h
  | good ↦ do
    (b, alt', h') ← alt_body g alt c e h
    let usb' = add_alt alt' usb
    let number' = first_number number alt.b_interface_number
    after_body b parsed usb' h' (λ n c'. do
      alternate ← is_alternate c' number'
      let rest = again usb' number' (parsed + n) c' h'
      if alternate then rest else ret (ok (parsed + n), usb', h'))
]

-- while (size >= INTERFACE_DESC_LENGTH) { ... }, with `parsed` bytes consumed before.
unfoldable pub interface_loop :
    ℕ → Grants → Interface → Option ℕ → ℕ → Cursor → Endian → Heap → Outcome InterfaceResult
interface_loop zero g usb number parsed c e h = fault out_of_fuel
interface_loop (suc f) g usb number parsed c e h =
    if ltb c.size 9
    then ret (ok parsed, usb, h)
    else (let (granted, usb', h') = grow g usb h in
        if not granted then fail_interface no_mem usb' h' else (do
          (ws, n) ← parse_descriptor interface_format c.buffer 0 bus
          alt_round g (store_alt ws) usb' number parsed c e h'
              (λ u n p c' h''. interface_loop f g u (some n) p c' e h'')))

-- Each round but the last consumes at least an interface descriptor, so the size bounds the rounds.
unfoldable pub parse_interface :
    Grants → Interface → Cursor → Endian → Heap → Outcome InterfaceResult
unfolding interface_loop
parse_interface g usb c e h =
    interface_loop (suc c.size) g (record usb { num_altsetting = 0 }) none 0 c e h
