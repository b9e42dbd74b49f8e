-- ===== src/Core/Claims/Refinement.antt =====
-- The bit mask of libusb/libusb/core.c against the set of claimed interfaces that it stands for.
use zerousb.Prelude.{
  ℕ, pos, ◌≡◌, ◌≢◌, inl, inr, refl, sym, ◌∙◌, Bool, true, false, not, leb, ltb, ◌==◌, if◌then◌else◌,
  Option, none, some, Outcome, ret, Returns, Returns-bind, ap, ◌>>=◌, test_bit, set_bit, clear_bit,
  Bool-cases, arith, List, [], ◌∷◌, test_bit-set_bit_self, test_bit-set_bit_ne,
  test_bit-clear_bit_self, test_bit-clear_bit_ne,
}
use zerousb.Usb.{Error, Success, success, invalid_param, no_device, not_found, Result, ok, err}
use zerousb.Core.Claims.{
  Handle, Backend, claim_answer, release_answer, plain_answer, claim_interface, release_interface,
  set_interface_alt_setting,
}

-- A set of interfaces.
abbrev pub Interfaces : Type 0
Interfaces = ℕ → Bool

abbrev insert : ℕ → Interfaces → Interfaces
insert n set j = if n == j then true else set j

abbrev remove : ℕ → Interfaces → Interfaces
remove n set j = if n == j then false else set j

-- The handle's mask stands for the set.
abbrev pub Represents : Handle → Interfaces → Type 0
Represents d set = (j : ℕ) → test_bit d.claimed_interfaces j ≡ set j

insert-Represents :
    (d : Handle) (set : Interfaces) (n : ℕ)
    → Represents d set
    → Represents (record d { claimed_interfaces = set_bit d.claimed_interfaces n }) (insert n set)
insert-Represents d set n h j = elim (Bool-cases (n == j)) [
  | inl p ↦
      let e : n ≡ j = ground arith in rw (p, sym e) (test_bit-set_bit_self d.claimed_interfaces n)
  | inr p ↦
      let e : n ≢ j = ground arith in rw p (test_bit-set_bit_ne d.claimed_interfaces n j e ∙ h j)
]

remove-Represents :
    (d : Handle) (set : Interfaces) (n : ℕ)
    → Represents d set
    → Represents (record d { claimed_interfaces = clear_bit d.claimed_interfaces n }) (remove n set)
remove-Represents d set n h j = elim (Bool-cases (n == j)) [
  | inl p ↦
      let e : n ≡ j = ground arith in rw (p, sym e) (test_bit-clear_bit_self d.claimed_interfaces n)
  | inr p ↦
      let e : n ≢ j = ground arith in rw p (test_bit-clear_bit_ne d.claimed_interfaces n j e ∙ h j)
]

pub data Call : Type 0 where
  claim release : ℕ → Call
  alt_setting : ℕ → ℕ → Call

-- What a call answers and leaves, of a set: the number must name an interface, the device must be
-- there, a claimed interface is not claimed again, and only a claimed one is released or set.
module _ {S : Type 0} (b : Backend S) where
  abbrev answer : Interfaces → Interfaces → Option Error × S → Result Success × Interfaces × S
  answer done set (none, s) = (ok success, done, s)
  answer done set (some x, s) = (err x, set, s)

  abbrev pub step : Bool → Call → Interfaces → S → Result Success × Interfaces × S
  step attached (claim n) set s =
      if not (ltb n 32)
      then (err invalid_param, set, s)
      else if not attached
      then (err no_device, set, s)
      else if set n
      then (ok success, set, s)
      else answer (insert n set) set (b.claim_interface n s)
  step attached (release n) set s =
      if not (ltb n 32)
      then (err invalid_param, set, s)
      else if set n
      then answer (remove n set) set (b.release_interface n s)
      else (err not_found, set, s)
  step attached (alt_setting n a) set s =
      if not (ltb n 32)
      then (err invalid_param, set, s)
      else if not attached
      then (err no_device, set, s)
      else if set n
      then answer set set (b.set_interface_altsetting n a s)
      else (err not_found, set, s)

  abbrev pub perform : Call → Handle → S → Outcome (Result Success × Handle × S)
  perform (claim n) d s = claim_interface b d (pos n) s
  perform (release n) d s = release_interface b d (pos n) s
  perform (alt_setting n a) d s = set_interface_alt_setting b d (pos n) a s

  -- The code's outcome against the set's: the same answer and state, and a mask for the same set.
  abbrev pub Matches :
      Handle → Result Success × Interfaces × S → Result Success × Handle × S → Type 0
  Matches d (r, set, s) (r', d', s') =
      (r' ≡ r) × (s' ≡ s) × (d'.attached ≡ d.attached) × Represents d' set

  claim_answer-Matches :
      (d : Handle) (set : Interfaces) (n : ℕ) (a : Option Error × S)
      → Represents d set
      → Matches d (answer (insert n set) set a) (claim_answer n d a)
  claim_answer-Matches d set n (none, s) h = (refl, refl, refl, insert-Represents d set n h)
  claim_answer-Matches d set n (some x, s) h = (refl, refl, refl, h)

  release_answer-Matches :
      (d : Handle) (set : Interfaces) (n : ℕ) (a : Option Error × S)
      → Represents d set
      → Matches d (answer (remove n set) set a) (release_answer n d a)
  release_answer-Matches d set n (none, s) h = (refl, refl, refl, remove-Represents d set n h)
  release_answer-Matches d set n (some x, s) h = (refl, refl, refl, h)

  plain_answer-Matches :
      (d : Handle) (set : Interfaces) (a : Option Error × S)
      → Represents d set
      → Matches d (answer set set a) (plain_answer d a)
  plain_answer-Matches d set (none, s) h = (refl, refl, refl, h)
  plain_answer-Matches d set (some x, s) h = (refl, refl, refl, h)

  abbrev handle : Bool → ℕ → Handle
  handle a w = record { attached = a; claimed_interfaces = w }

  claim-Matches :
      (n : ℕ) (a : Bool) (w : ℕ) (set : Interfaces) (s : S)
      → Represents (handle a w) set
      → Returns
          (claim_interface b (handle a w) (pos n) s)
          (Matches (handle a w) (step a (claim n) set s))
  unfolding claim_interface
  claim-Matches n a w set s h = elim (Bool-cases (ltb n 32)) [
    | inr p ↦ let q : leb 32 n ≡ true = ground arith in rw (p, q) (refl, refl, refl, h)
    | inl p ↦ let q : leb 32 n ≡ false = ground arith in rw (p, q) (inside a h)
  ]
    where
      inside :
          (a : Bool)
          → Represents (handle a w) set
          → Returns
              (if not a
                then ret (err no_device, handle a w, s)
                else if test_bit w n
                then ret (ok success, handle a w, s)
                else ret (claim_answer n (handle a w) (b.claim_interface n s)))
              (Matches (handle a w) (
                if not a
                then (err no_device, set, s)
                else if set n
                then (ok success, set, s)
                else answer (insert n set) set (b.claim_interface n s)))
      inside false h = (refl, refl, refl, h)
      inside true h = elim (Bool-cases (set n)) [
        | inl m ↦ rw (h n, m) (refl, refl, refl, h)
        | inr m ↦ rw (h n, m) (claim_answer-Matches (handle true w) set n (b.claim_interface n s) h)
      ]

  release-Matches :
      (n : ℕ) (a : Bool) (w : ℕ) (set : Interfaces) (s : S)
      → Represents (handle a w) set
      → Returns
          (release_interface b (handle a w) (pos n) s)
          (Matches (handle a w) (step a (release n) set s))
  unfolding release_interface
  release-Matches n a w set s h = elim (Bool-cases (ltb n 32)) [
    | inr p ↦ let q : leb 32 n ≡ true = ground arith in rw (p, q) (refl, refl, refl, h)
    | inl p ↦
        let q : leb 32 n ≡ false = ground arith in
        elim (Bool-cases (set n)) [
          | inl m ↦
              rw (p, q, h n, m)
                (release_answer-Matches (handle a w) set n (b.release_interface n s) h)
          | inr m ↦ rw (p, q, h n, m) (refl, refl, refl, h)
        ]
  ]

  alt_setting-Matches :
      (n t : ℕ) (a : Bool) (w : ℕ) (set : Interfaces) (s : S)
      → Represents (handle a w) set
      → Returns
          (set_interface_alt_setting b (handle a w) (pos n) t s)
          (Matches (handle a w) (step a (alt_setting n t) set s))
  unfolding set_interface_alt_setting
  alt_setting-Matches n t false w set s h = elim (Bool-cases (ltb n 32)) [
    | inr p ↦ let q : leb 32 n ≡ true = ground arith in rw (p, q) (refl, refl, refl, h)
    | inl p ↦ let q : leb 32 n ≡ false = ground arith in rw (p, q) (refl, refl, refl, h)
  ]
  alt_setting-Matches n t true w set s h = elim (Bool-cases (ltb n 32)) [
    | inr p ↦ let q : leb 32 n ≡ true = ground arith in rw (p, q) (refl, refl, refl, h)
    | inl p ↦
        let q : leb 32 n ≡ false = ground arith in
        elim (Bool-cases (set n)) [
          | inl m ↦
              rw (p, q, h n, m)
                (plain_answer-Matches (handle true w) set (b.set_interface_altsetting n t s) h)
          | inr m ↦ rw (p, q, h n, m) (refl, refl, refl, h)
        ]
  ]

  -- A call whose number is not negative does to the mask, to the answer and to the backend's state
  -- what `step` does to the set that the mask stands for.
  pub perform-Matches :
      (c : Call) (d : Handle) (set : Interfaces) (s : S)
      → Represents d set
      → Returns (perform c d s) (Matches d (step d.attached c set s))
  perform-Matches (claim n) d set s h = claim-Matches n d.attached d.claimed_interfaces set s h
  perform-Matches (release n) d set s h = release-Matches n d.attached d.claimed_interfaces set s h
  perform-Matches (alt_setting n t) d set s h =
      alt_setting-Matches n t d.attached d.claimed_interfaces set s h

  -- A sequence of calls, each at what the ones before it left.
  abbrev pub perform_all : List Call → Handle → S → Outcome (List (Result Success) × Handle × S)
  perform_all [] d s = ret ([], d, s)
  perform_all (c ∷ cs) d s = do
    (r, d', s') ← perform c d s
    (rs, d'', s'') ← perform_all cs d' s'
    ret (r ∷ rs, d'', s'')

  abbrev pub steps : Bool → List Call → Interfaces → S → List (Result Success) × Interfaces × S
  steps a [] set s = ([], set, s)
  steps a (c ∷ cs) set s =
      let (r, set', s') = step a c set s in
      let (rs, set'', s'') = steps a cs set' s' in (r ∷ rs, set'', s'')

  -- What the calls answer and leave, against what the steps do.
  abbrev pub MatchesAll :
      List (Result Success) × Interfaces × S → List (Result Success) × Handle × S → Type 0
  MatchesAll (rs', set', s') (rs, d', s'') = (rs ≡ rs') × (s'' ≡ s') × Represents d' set'

  behind :
      (cs : List Call) (d : Handle) (t : Result Success × Interfaces × S)
      (x : Result Success × Handle × S)
      → ((e : Handle) (v : Interfaces) (u : S)
          → Represents e v
          → Returns (perform_all cs e u) (MatchesAll (steps e.attached cs v u)))
      → Matches d t x
      → Returns
          (do (rs, d', s') ← perform_all cs x.1 x.2; ret (x.0 ∷ rs, d', s'))
          (MatchesAll (let (rs', v, u) = steps d.attached cs t.1 t.2 in (t.0 ∷ rs', v, u)))
  behind cs d (r, set', s') (r', d', s'') ih (er, es, ea, h) =
      rw (sym ea, sym es, sym er)
        (Returns-bind (perform_all cs d' s'') (MatchesAll (steps d'.attached cs set' s'')) _ _
          (ih d' set' s'' h) (λ y p. (ap (λ z. r' ∷ z) p.0, p.1, p.2)))

  -- From a handle whose mask stands for a set, a sequence of calls with numbers that are not negative
  -- answers, and leaves in the backend, what the sequence of `step`s on the set does, and the mask
  -- that it leaves stands for the set that they leave.
  pub perform_all-Matches :
      (cs : List Call) (d : Handle) (set : Interfaces) (s : S)
      → Represents d set
      → Returns (perform_all cs d s) (MatchesAll (steps d.attached cs set s))
  perform_all-Matches [] d set s h = (refl, refl, h)
  perform_all-Matches (c ∷ cs) d set s h =
      Returns-bind (perform c d s) (Matches d (step d.attached c set s)) _ _
        (perform-Matches c d set s h)
        (λ x. behind cs d (step d.attached c set s) x (perform_all-Matches cs))
