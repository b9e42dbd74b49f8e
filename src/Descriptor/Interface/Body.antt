-- ===== src/Descriptor/Interface/Body.antt =====
-- What `parse_interface` of libusb/libusb/descriptor.c does behind one interface descriptor.
use zerousb.Prelude.{
  ℕ, zero, suc, ◌+◌, some, List, [], ◌∷◌, Outcome, ret, ◌>>=◌, if◌then◌else◌, ◌==◌, replicate,
}
use zerousb.Usb.{Error, io, no_mem, Result, ok, err}
use zerousb.Descriptor.Format.{Endian}
use zerousb.Descriptor.Cursor.{Cursor, advance, Skip, stopped, short, bad_length, skip}
use zerousb.Descriptor.Heap.{Grants, Heap, malloc, copy}
use zerousb.Descriptor.Endpoint.{Endpoint, zero_endpoint, parse_endpoint}
use zerousb.Descriptor.Interface.Setting.{AltSetting}

-- What the loop over the endpoints leaves: an error, or the endpoints parsed, the bytes consumed and
-- the cursor behind them; the array, and the heap.
abbrev pub EndpointsResult : Type 0
EndpointsResult = Result (ℕ × ℕ × Cursor) × List Endpoint × Heap

abbrev pub count_endpoint : ℕ → Result (ℕ × ℕ × Cursor) → Result (ℕ × ℕ × Cursor)
count_endpoint k (err e) = err e
count_endpoint k (ok (i, parsed, c)) = ok (suc i, k + parsed, c)

-- for (i = 0; i < ifp->bNumEndpoints; i++) { ... } with `n` entries of the array left.
unfoldable pub parse_endpoints : Grants → ℕ → Cursor → Endian → Heap → Outcome EndpointsResult
parse_endpoints g zero c e h = ret (ok (0, 0, c), [], h)
parse_endpoints g (suc n) c e h = do
  (r, ep, h') ← parse_endpoint g zero_endpoint c e h
  elim r [
    | err x ↦ ret (err x, ep ∷ replicate n zero_endpoint, h')
    | ok k ↦
        let rest = parse_endpoints g n (advance k c) e h' in
        if k == 0
        then ret (ok (0, 0, c), ep ∷ replicate n zero_endpoint, h')
        else (do (s, eps, h'') ← rest; ret (count_endpoint k s, ep ∷ eps, h''))
  ]

-- How the body of the loop over the settings ends: `failed` jumps to `err`, `cut` returns what was
-- parsed, `next` goes on behind the setting; the last two with the bytes consumed.
pub data Body : Type 0 where
  failed : Error → Body
  cut : ℕ → Body
  next : ℕ → Cursor → Body

abbrev pub BodyResult : Type 0
BodyResult = Body × AltSetting × Heap

-- if (ifp->bNumEndpoints > 0) { ... }, with `parsed` bytes consumed before.
unfoldable pub alt_endpoints : Grants → AltSetting → ℕ → Cursor → Endian → Heap → Outcome BodyResult
unfolding parse_endpoints
alt_endpoints g alt parsed c e h =
    if alt.b_num_endpoints == 0
    then ret (next parsed c, alt, h)
    else (let (granted, h') = malloc g h in
        if granted
        then (do
          (r, eps, h'') ← parse_endpoints g alt.b_num_endpoints c e h'
          elim r [
            | err x ↦ ret (failed x, record alt { endpoints = some eps }, h'')
            | ok (i, n, c') ↦ ret (
              next (parsed + n) c',
              record alt { endpoints = some eps; b_num_endpoints = i },
              h'',
            )
          ])
        else ret (failed no_mem, alt, h'))

-- What follows the skipping of interface, class and vendor descriptors: the copy of the skipped
-- bytes, and the endpoints.
unfoldable pub alt_extra :
    Grants → AltSetting → ℕ → Cursor → Skip → Endian → Heap → Outcome BodyResult
unfolding alt_endpoints
alt_extra g alt parsed c bad_length e h = ret (failed io, alt, h)
alt_extra g alt parsed c (short n) e h = ret (cut (parsed + n), alt, h)
alt_extra g alt parsed c (stopped n) e h =
    if n == 0
    then alt_endpoints g alt parsed c e h
    else (let (granted, h') = malloc g h in
        if granted
        then (do
          bytes ← copy n c.buffer
          alt_endpoints g (record alt { extra = bytes }) (parsed + n) (advance n c) e h')
        else ret (failed no_mem, alt, h'))

-- The body behind the checks, from the skipping over the interface descriptor on.
unfoldable pub alt_body : Grants → AltSetting → Cursor → Endian → Heap → Outcome BodyResult
unfolding alt_extra skip
alt_body g alt c e h = do
  s ← skip (advance alt.b_length c)
  alt_extra g alt alt.b_length (advance alt.b_length c) s e h
