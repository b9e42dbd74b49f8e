-- ===== src/Descriptor/Fetch/Index.antt =====
-- Which configuration `usbi_get_config_index_by_value` of libusb/libusb/descriptor.c finds.
use zerousb.Prelude.{
  ℕ, zero, suc, ◌+◌, ◌≡◌, ◌≢◌, ◌≤◌, ◌<◌, subst, Option, none, some, List, ◌==◌, get_or, Bool-cases,
  inl, inr, arith,
}
use zerousb.Usb.{Result, ok, err, Result-cases}
use zerousb.Descriptor.Fetch.{Request, index_loop, get_config_index_by_value}

-- The configuration that the backend reports at an index has the value.
abbrev pub HasValue : (ℕ → Request) → (ℕ → ℕ) → ℕ → ℕ → Type 0
HasValue request garbage value i =
    (bytes : List ℕ) × ((request i 6).0 ≡ ok bytes) × (get_or bytes 5 (garbage i) ≡ value)

-- The configuration at an index is reported, and has another value.
abbrev pub HasOther : (ℕ → Request) → (ℕ → ℕ) → ℕ → ℕ → Type 0
HasOther request garbage value i =
    (bytes : List ℕ) × ((request i 6).0 ≡ ok bytes) × (get_or bytes 5 (garbage i) ≢ value)

-- From index `i` to `stop` all configurations have another value.
abbrev pub NoneBefore : (ℕ → Request) → (ℕ → ℕ) → ℕ → ℕ → ℕ → Type 0
NoneBefore request garbage value i stop =
    (k : ℕ) → i ≤ k → k < stop → HasOther request garbage value k

abbrev pub Finds : (ℕ → Request) → (ℕ → ℕ) → ℕ → ℕ → ℕ → Result (Option ℕ) → Type 0
Finds request garbage value i stop (ok (some k)) =
    (k < stop) × HasValue request garbage value k × NoneBefore request garbage value i k
Finds request garbage value i stop (ok none) = NoneBefore request garbage value i stop
Finds request garbage value i stop (err x) =
    (k : ℕ) × (k < stop) × ((request k 6).0 ≡ err x) × NoneBefore request garbage value i k

widen :
    (request : ℕ → Request) (garbage : ℕ → ℕ) (value i stop : ℕ) (r : Result (Option ℕ))
    → HasOther request garbage value i
    → Finds request garbage value (suc i) stop r
    → Finds request garbage value i stop r
widen request garbage value i stop r o f = by_result r f
  where
    before :
        (m : ℕ) → NoneBefore request garbage value (suc i) m → NoneBefore request garbage value i m
    before m b k l u = elim (Bool-cases (i == k)) [
      | inl p ↦ let e : i ≡ k = ground arith in subst (HasOther request garbage value) e o
      | inr p ↦ b k (ground arith) u
    ]

    by_result :
        (r : Result (Option ℕ))
        → Finds request garbage value (suc i) stop r
        → Finds request garbage value i stop r
    by_result (ok (some k)) (l, h, b) = (l, h, before k b)
    by_result (ok none) b = before stop b
    by_result (err x) (k, l, e, b) = (k, l, e, before k b)

index_loop-Finds :
    (request : ℕ → Request) (garbage : ℕ → ℕ) (value n i : ℕ)
    → Finds request garbage value i (i + n) (index_loop request garbage value n i)
unfolding index_loop
index_loop-Finds request garbage value zero i = λ k l u. absurd (omega arith)
index_loop-Finds request garbage value (suc n) i = elim (Result-cases (request i 6).0) [
  | inl (x, e) ↦ rw (e, index_loop) (i, omega arith, e, λ k l u. absurd (omega arith))
  | inr (bytes, e) ↦ elim (Bool-cases (get_or bytes 5 (garbage i) == value)) [
    | inl p ↦
        rw (e, p, index_loop) (omega arith, (bytes, e, ground arith), λ k l u. absurd (omega arith))
    | inr p ↦
        rw (e, p, index_loop)
          (widen request garbage value i (i + suc n) (index_loop request garbage value n (suc i))
            (bytes, e, ground arith)
            (let k : suc i + n ≡ i + suc n = omega arith in
              subst
                (λ stop.
                  Finds request garbage value (suc i) stop
                    (index_loop request garbage value n (suc i)))
                k (index_loop-Finds request garbage value n (suc i))))
  ]
]

-- Among the configurations of the device the function finds the first with the value, all before it
-- being reported with other values; it finds none if all are reported with other values; and its error
-- is that of the first configuration that is not reported, all before it having other values.
pub get_config_index_by_value-Finds :
    (request : ℕ → Request) (garbage : ℕ → ℕ) (num_configurations value : ℕ)
    → Finds request garbage value 0 num_configurations
        (get_config_index_by_value request garbage num_configurations value)
unfolding get_config_index_by_value
get_config_index_by_value-Finds request garbage n value =
    let k : 0 + n ≡ n = omega arith in
    subst (λ stop. Finds request garbage value 0 stop (index_loop request garbage value n 0)) k
      (index_loop-Finds request garbage value n 0)
