-- ===== src/Descriptor/Format.antt =====
-- `usbi_parse_descriptor` of libusb/libusb/descriptor.c. The format string is a list of its letters.
-- The destination structure is the list of the writes to it, each at its offset from the start,
-- which is aligned to a word.
pub mod Reads
use zerousb.Prelude.{
  ℕ, ◌+◌, ◌*◌, ◌%◌, ◌≤◌, ◌≡◌, refl, List, [], ◌∷◌, Outcome, ret, fault, overrun, ◌>>=◌, arith, ltb,
  if◌then◌else◌, length, take, drop, ◌==◌, ge→ltb, length-drop,
}

-- 'b', 'w', 'd' and 'u'
pub data Letter : Type 0 where
  byte word dword uuid : Letter

-- The order of the bytes of a word in the source: `host_endian` with the CPU's own byte order.
pub data Endian : Type 0 where
  bus host_little host_big : Endian

pub data Value : Type 0 where
  num : ℕ → Value
  raw : List ℕ → Value

abbrev pub Writes : Type 0
Writes = List (ℕ × Value)

abbrev pub word_value : Endian → ℕ → ℕ → ℕ
word_value bus x y = y * 256 + x
word_value host_little x y = y * 256 + x
word_value host_big x y = x * 256 + y

abbrev pub dword_value : Endian → ℕ → ℕ → ℕ → ℕ → ℕ
dword_value bus x y z t = t * 16777216 + z * 65536 + y * 256 + x
dword_value host_little x y z t = t * 16777216 + z * 65536 + y * 256 + x
dword_value host_big x y z t = x * 16777216 + y * 65536 + z * 256 + t

-- dp += ((uintptr_t)dp & 1)
abbrev pub align : ℕ → ℕ
align dp = dp + dp % 2

-- The writes, and the count of source bytes that were consumed.
unfoldable pub parse_descriptor : List Letter → List ℕ → ℕ → Endian → Outcome (Writes × ℕ)
parse_descriptor [] sp dp e = ret ([], 0)
parse_descriptor (byte ∷ cp) [] dp e = fault overrun
parse_descriptor (byte ∷ cp) (x ∷ sp) dp e = do
  (ws, n) ← parse_descriptor cp sp (dp + 1) e
  ret ((dp, num x) ∷ ws, n + 1)
parse_descriptor (word ∷ cp) (x ∷ y ∷ sp) dp e = do
  (ws, n) ← parse_descriptor cp sp (align dp + 2) e
  ret ((align dp, num (word_value e x y)) ∷ ws, n + 2)
parse_descriptor (word ∷ cp) sp dp e = fault overrun
parse_descriptor (dword ∷ cp) (x ∷ y ∷ z ∷ t ∷ sp) dp e = do
  (ws, n) ← parse_descriptor cp sp (align dp + 4) e
  ret ((align dp, num (dword_value e x y z t)) ∷ ws, n + 4)
parse_descriptor (dword ∷ cp) sp dp e = fault overrun
parse_descriptor (uuid ∷ cp) sp dp e = if ltb (length sp) 16 then fault overrun else (do
  (ws, n) ← parse_descriptor cp (drop 16 sp) (dp + 16) e
  ret ((dp, raw (take 16 sp)) ∷ ws, n + 16))

-- The field at an offset: what was written there, or else what the structure held.
abbrev pub field_at : Writes → ℕ → ℕ → ℕ
field_at [] o old = old
field_at ((i, num v) ∷ ws) o old = if i == o then v else field_at ws o old
field_at ((i, raw v) ∷ ws) o old = field_at ws o old

abbrev pub raw_at : Writes → ℕ → List ℕ
raw_at [] o = []
raw_at ((i, num v) ∷ ws) o = raw_at ws o
raw_at ((i, raw v) ∷ ws) o = if i == o then v else raw_at ws o

-- The source bytes that a format reads.
abbrev pub width : List Letter → ℕ
width [] = 0
width (byte ∷ cp) = width cp + 1
width (word ∷ cp) = width cp + 2
width (dword ∷ cp) = width cp + 4
width (uuid ∷ cp) = width cp + 16
