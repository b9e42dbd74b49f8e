-- ===== src/Descriptor/Format/Reads.antt =====
-- How much `usbi_parse_descriptor` reads, and that it inverts the encoding of a structure.
use zerousb.Prelude.{
  ℕ, ◌+◌, ◌≤◌, ◌≡◌, refl, List, [], ◌∷◌, ret, arith, length, take, drop, ge→ltb, length-drop,
}
use zerousb.Descriptor.Format.{
  Letter, byte, word, dword, uuid, Endian, Writes, num, raw, align, word_value, dword_value,
  parse_descriptor, width,
}

-- With at least the format's width of bytes, `usbi_parse_descriptor` returns, having consumed exactly
-- that many.
pub parse_descriptor_total :
    (cp : List Letter) (sp : List ℕ) (dp : ℕ) (e : Endian)
    → width cp ≤ length sp
    → (ws : Writes) × (parse_descriptor cp sp dp e ≡ ret (ws, width cp))
unfolding parse_descriptor
parse_descriptor_total [] sp dp e h = ([], refl)
parse_descriptor_total (byte ∷ cp) [] dp e h = absurd (omega arith)
parse_descriptor_total (byte ∷ cp) (x ∷ sp) dp e h =
    let (ws, p) = parse_descriptor_total cp sp (dp + 1) e (omega arith) in ((dp, num x) ∷ ws, rw p)
parse_descriptor_total (word ∷ cp) (x ∷ y ∷ sp) dp e h =
    let (ws, p) = parse_descriptor_total cp sp (align dp + 2) e (omega arith) in
    ((align dp, num (word_value e x y)) ∷ ws, rw p)
parse_descriptor_total (word ∷ cp) sp dp e h = absurd (omega arith)
parse_descriptor_total (dword ∷ cp) (x ∷ y ∷ z ∷ t ∷ sp) dp e h =
    let (ws, p) = parse_descriptor_total cp sp (align dp + 4) e (omega arith) in
    ((align dp, num (dword_value e x y z t)) ∷ ws, rw p)
parse_descriptor_total (dword ∷ cp) sp dp e h = absurd (omega arith)
parse_descriptor_total (uuid ∷ cp) sp dp e h =
    let (ws, p) =
      parse_descriptor_total cp (drop 16 sp) (dp + 16) e (omega (arith, length-drop 16 sp)) in
    ((dp, raw (take 16 sp)) ∷ ws, rw (ge→ltb (length sp) 16 (omega arith), p))
