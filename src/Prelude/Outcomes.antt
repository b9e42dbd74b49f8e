-- ===== src/Prelude/Outcomes.antt =====
-- What running a piece of C code can come to.
use mathlib.Core.Path.{◌≡◌, refl}

-- `overrun`: a read past the end of the memory that the code was given; `use_after_free`: a read
-- of memory that was freed; `null_deref`: a read through NULL; `bad_shift`: a shift by a negative
-- number, which C leaves undefined; `out_of_fuel`: a loop of the model that has made more rounds than
-- its bound.
pub data Fault : Type 0 where
  overrun use_after_free null_deref bad_shift out_of_fuel : Fault

pub data Outcome {ℓ} (A : Type ℓ) : Type ℓ where
  ret : A → Outcome A
  fault : Fault → Outcome A

infixl 5 ◌>>=◌ ◌>>◌
abbrev pub ◌>>=◌ {ℓ κ} : {A : Type ℓ} {B : Type κ} → Outcome A → (A → Outcome B) → Outcome B
ret a >>= f = f a
fault e >>= f = fault e

abbrev pub ◌>>◌ {ℓ κ} : {A : Type ℓ} {B : Type κ} → Outcome A → Outcome B → Outcome B
m >> k = m >>= λ _. k

-- The outcome is a value with the property.
abbrev pub Returns {ℓ} : {A : Type ℓ} → Outcome A → (A → Type 0) → Type 0
Returns (ret a) P = P a
Returns (fault e) P = ⊥

-- The value of an outcome that returns.
pub Returns-inv {ℓ} :
    {A : Type ℓ} (o : Outcome A) (P : A → Type 0) → Returns o P → (a : A) × (o ≡ ret a) × P a
Returns-inv (ret a) P h = (a, refl, h)
Returns-inv (fault e) P h = absurd h

pub Returns-bind {ℓ κ} :
    {A : Type ℓ} {B : Type κ} (o : Outcome A) (P : A → Type 0) (f : A → Outcome B) (Q : B → Type 0)
    → Returns o P
    → ((a : A) → P a → Returns (f a) Q)
    → Returns (o >>= f) Q
Returns-bind (ret a) P f Q h k = k a h
Returns-bind (fault e) P f Q h k = absurd h

-- The outcome is a value with the property, or a use after free, which takes the condition U.
abbrev pub Guarded {ℓ} : {A : Type ℓ} → Type 0 → Outcome A → (A → Type 0) → Type 0
Guarded U (ret a) P = P a
Guarded U (fault use_after_free) P = U
Guarded U (fault overrun) P = ⊥
Guarded U (fault null_deref) P = ⊥
Guarded U (fault bad_shift) P = ⊥
Guarded U (fault out_of_fuel) P = ⊥

pub Returns-Guarded {ℓ} :
    {A : Type ℓ} (U : Type 0) (o : Outcome A) (P : A → Type 0) → Returns o P → Guarded U o P
Returns-Guarded U (ret a) P h = h
Returns-Guarded U (fault e) P h = absurd h

pub Guarded-bind {ℓ κ} :
    {A : Type ℓ} {B : Type κ} (U : Type 0) (o : Outcome A) (P : A → Type 0) (f : A → Outcome B)
    (Q : B → Type 0)
    → Guarded U o P
    → ((a : A) → P a → Guarded U (f a) Q)
    → Guarded U (o >>= f) Q
Guarded-bind U (ret a) P f Q h k = k a h
Guarded-bind U (fault use_after_free) P f Q h k = h
Guarded-bind U (fault overrun) P f Q h k = absurd h
Guarded-bind U (fault null_deref) P f Q h k = absurd h
Guarded-bind U (fault bad_shift) P f Q h k = absurd h
Guarded-bind U (fault out_of_fuel) P f Q h k = absurd h
