-- ===== src/Core/Handles/Find.antt =====
-- The search for a device by its identifiers in `libusb_open_device_with_vid_pid` of libusb/libusb/core.c.
use zerousb.Prelude.{
  ℕ, ◌≡◌, ◌≢◌, ◌++◌, ◌<◌, refl, ap, subst, true, false, ◌&&◌, Option, none, some, List, [], ◌∷◌,
  ◌==◌, Bool-cases, inl, inr, arith, All,
}
use zerousb.Core.Devices.Counts.{count}
use zerousb.Core.Handles.{find_ids}

-- The first device with the identifiers, or that there is none.
abbrev pub First : ℕ × ℕ → (ℕ → ℕ × ℕ) → List ℕ → Option ℕ → Type 0
First wanted ids devs none = All (λ d. ids d ≢ wanted) devs
First wanted ids devs (some d) =
    (before : List ℕ) × (after : List ℕ) × (devs ≡ before ++ d ∷ after)
    × All (λ x. ids x ≢ wanted) before
    × (ids d ≡ wanted)

same_ids : (p q : ℕ × ℕ) → (p.0 == q.0 && p.1 == q.1) ≡ true → p ≡ q
same_ids (a, b) (c, d) h =
    let u : a ≡ c = ground (arith, h) in let v : b ≡ d = ground (arith, h) in rw (u, v) refl

other_ids : (p q : ℕ × ℕ) → (p.0 == q.0 && p.1 == q.1) ≡ false → p ≢ q
other_ids p q h e = absurd (ground (arith, h, ap (λ x. x.0) e, ap (λ x. x.1) e))

find_ids-First :
    (wanted : ℕ × ℕ) (ids : ℕ → ℕ × ℕ) (devs : List ℕ)
    → First wanted ids devs (find_ids wanted ids devs)
find_ids-First wanted ids [] = tt
find_ids-First wanted ids (x ∷ xs) =
    elim (Bool-cases ((ids x).0 == wanted.0 && (ids x).1 == wanted.1)) [
      | inl p ↦ rw p ([], xs, refl, tt, same_ids (ids x) wanted p)
      | inr p ↦ rw p (
          behind (find_ids wanted ids xs) (other_ids (ids x) wanted p)
            (find_ids-First wanted ids xs))
    ]
  where
    behind : (o : Option ℕ) → ids x ≢ wanted → First wanted ids xs o → First wanted ids (x ∷ xs) o
    behind none n f = (n, f)
    behind (some d) n (before, after, e, a, w) = (x ∷ before, after, ap (x ∷◌) e, (n, a), w)

pub found-First :
    (wanted : ℕ × ℕ) (ids : ℕ → ℕ × ℕ) (devs : List ℕ) (o : Option ℕ)
    → find_ids wanted ids devs ≡ o
    → First wanted ids devs o
found-First wanted ids devs o e = subst (First wanted ids devs) e (find_ids-First wanted ids devs)

pub find_ids-count :
    (wanted : ℕ × ℕ) (ids : ℕ → ℕ × ℕ) (devs : List ℕ) (d : ℕ)
    → find_ids wanted ids devs ≡ some d
    → 0 < count d devs
find_ids-count wanted ids [] d e = cc
find_ids-count wanted ids (x ∷ xs) d e =
    elim (Bool-cases ((ids x).0 == wanted.0 && (ids x).1 == wanted.1)) [
      | inl q ↦ let f : Option.some x ≡ some d = rw q at e in ground arith
      | inr q ↦
          let f : find_ids wanted ids xs ≡ some d = rw q at e in
          ground (arith, find_ids-count wanted ids xs d f)
    ]
