-- ===== src/Descriptor/Chain.antt =====
-- A run of descriptors as a device sends it: each says its length and its type first.
use zerousb.Prelude.{
  ℕ, suc, ◌+◌, ◌-◌, ◌≡◌, refl, ap, ◌∙◌, List, [], ◌∷◌, ◌++◌, length, drop, length-append, arith,
  ret,
}
use zerousb.Descriptor.Format.{parse_descriptor}
use zerousb.Descriptor.Cursor.{Cursor, advance, header}

pub record Desc : Type 0 where
  pub kind : ℕ
  pub body : List ℕ

abbrev pub size_of : Desc → ℕ
size_of d = length d.body + 2

-- The bytes of a run, with what follows them.
abbrev pub encode : List Desc → List ℕ → List ℕ
encode [] rest = rest
encode (d ∷ ds) rest = size_of d ∷ d.kind ∷ (d.body ++ encode ds rest)

abbrev pub total : List Desc → ℕ
total [] = 0
total (d ∷ ds) = size_of d + total ds

drop-append : (xs ys : List ℕ) → drop (length xs) (xs ++ ys) ≡ ys
drop-append [] ys = refl
drop-append (x ∷ xs) ys = drop-append xs ys

-- Behind the first descriptor comes the rest of the run.
pub drop-encode :
    (d : Desc) (ds : List Desc) (rest : List ℕ)
    → drop (size_of d) (encode (d ∷ ds) rest) ≡ encode ds rest
drop-encode d ds rest =
    let e : length d.body + 2 ≡ suc (suc (length d.body)) = omega arith in
    ap (λ k. drop k (encode (d ∷ ds) rest)) e ∙ drop-append d.body (encode ds rest)

pub header-encode :
    (d : Desc) (ds : List Desc) (rest : List ℕ) (n : ℕ)
    → header (record { buffer = encode (d ∷ ds) rest; size = n }) ≡ ret (size_of d, d.kind)
unfolding header parse_descriptor
header-encode d ds rest n = refl

pub length-encode :
    (ds : List Desc) (rest : List ℕ) → length (encode ds rest) ≡ total ds + length rest
length-encode [] rest = omega arith
length-encode (d ∷ ds) rest =
    omega (arith, length-append d.body (encode ds rest), length-encode ds rest)

-- A cursor at the start of a run, with all its bytes left.
abbrev pub at : List Desc → List ℕ → Cursor
at ds rest = record { buffer = encode ds rest; size = total ds + length rest }

pub advance-at :
    (d : Desc) (ds : List Desc) (rest : List ℕ)
    → advance (size_of d) (at (d ∷ ds) rest) ≡ at ds rest
advance-at d ds rest = λ i. record { buffer = drop-encode d ds rest i; size = size_path i }
  where
    size_path : total (d ∷ ds) + length rest - size_of d ≡ total ds + length rest
    size_path = omega arith
