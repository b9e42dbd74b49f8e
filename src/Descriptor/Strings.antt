-- ===== src/Descriptor/Strings.antt =====
-- `libusb_get_string_descriptor_ascii` of libusb/libusb/descriptor.c.
pub mod Ascii
pub mod Bounds
use zerousb.Prelude.{
  ℕ, zero, suc, ◌+◌, ◌*◌, not, Bool, true, false, Option, none, some, List, [], ◌∷◌, get_elem?,
  Outcome, ret, fault, overrun, out_of_fuel, ◌>>=◌, ltb, leb, if◌then◌else◌, length, ◌==◌,
}
use zerousb.Usb.{Error, io, invalid_param, Result, ok, err, dt_string}

-- unsigned char tbuf[255], uninitialised at first.
abbrev pub Buffer : Type 0
Buffer = ℕ → ℕ

abbrev pub tbuf_size : ℕ
tbuf_size = 255

-- The answer of a request lies at the start of the buffer.
abbrev pub write : List ℕ → Buffer → Buffer
write bytes b i = elim (get_elem? bytes i) [ none ↦ b i | some x ↦ x ]

abbrev pub read : Buffer → ℕ → Outcome ℕ
read b i = if ltb i tbuf_size then ret (b i) else fault overrun

-- (tbuf[si] & 0x80) || (tbuf[si + 1]), of bytes: the second is read only if the first test fails.
unfoldable pub is_foreign : Buffer → ℕ → Outcome Bool
is_foreign b si = do
  low ← read b si
  if leb 128 low then ret true else (do high ← read b (si + 1); ret (not (high == 0)))

-- for (si = 2; si < tbuf[0]; si += 2) { ... }: the characters that are put into `data`, at di on.
unfoldable pub ascii_loop : ℕ → Buffer → ℕ → ℕ → ℕ → Outcome (List ℕ)
unfolding is_foreign
ascii_loop zero b length si di = fault out_of_fuel
ascii_loop (suc f) b length si di =
    let rest = ascii_loop f b length (si + 2) (di + 1) in
    if leb (b 0) si then ret [] else if leb length (di + 1) then ret [] else (do
      foreign ← is_foreign b si
      low ← read b si
      cs ← rest
      ret ((if foreign then b'?' else low) ∷ cs))

-- data[di] = 0; return di: the characters, if `data` has room for the byte behind them.
unfoldable pub terminate : ℕ → List ℕ → Outcome (Result (List ℕ))
terminate room cs = if ltb (length cs) room then ret (ok cs) else fault overrun

-- A round consumes two of the at most 255 bytes that tbuf[0] speaks of.
unfoldable pub convert : Buffer → ℕ → ℕ → Outcome (Result (List ℕ))
unfolding ascii_loop terminate
convert b r room =
    if not (b 1 == dt_string)
    then ret (err io)
    else if ltb r (b 0)
    then ret (err io)
    else (do cs ← ascii_loop 128 b room 2 0; terminate room cs)

-- `request index langid` is libusb_get_string_descriptor with room for 255 bytes: an error, or the
-- bytes that came. `garbage` is what the buffer held. The result is what is put into `data`, before
-- the byte 0.
unfoldable pub get_string_descriptor_ascii :
    (ℕ → ℕ → Result (List ℕ)) → Buffer → ℕ → ℕ → Outcome (Result (List ℕ))
unfolding convert
get_string_descriptor_ascii request garbage index room =
    if index == 0 then ret (err invalid_param) else elim (request 0 0) [
      | err x ↦ ret (err x)
      | ok bytes ↦
          let b = write bytes garbage in
          let langid = b 2 + b 3 * 256 in
          if ltb (length bytes) 4 then ret (err io) else elim (request index langid) [
            | err x ↦ ret (err x)
            | ok answer ↦ convert (write answer b) (length answer) room
          ]
    ]
