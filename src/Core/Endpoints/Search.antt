-- ===== src/Core/Endpoints/Search.antt =====
-- `find_endpoint` of libusb/libusb/core.c on configurations whose counts and arrays agree.
use zerousb.Prelude.{
  ℕ, zero, suc, ◌≡◌, ◌≤◌, refl, ◌==◌, inl, inr, true, Option, none, some, List, [], ◌∷◌, ◌++◌, take,
  length, All, ret, if◌then◌else◌, Bool-cases, arith,
}
use zerousb.Descriptor.Endpoint.{Endpoint}
use zerousb.Descriptor.Interface.Setting.{AltSetting, Array, null, dangling, items, Interface}
use zerousb.Descriptor.Config.{Config}
use zerousb.Core.Endpoints.{
  search_endpoints, search_array, or_else, search_settings, search_interface, search_interfaces,
  find_endpoint,
}

-- The endpoints that the counts cover, in the order of the descriptors.
abbrev counted : ℕ → Option (List Endpoint) → List Endpoint
counted n none = []
counted n (some eps) = take n eps

abbrev endpoints_in : AltSetting → List Endpoint
endpoints_in alt = counted alt.b_num_endpoints alt.endpoints

abbrev endpoints_all : List AltSetting → List Endpoint
endpoints_all [] = []
endpoints_all (alt ∷ alts) = endpoints_in alt ++ endpoints_all alts

abbrev settings_of : Array AltSetting → List AltSetting
settings_of null = []
settings_of dangling = []
settings_of (items alts) = alts

abbrev endpoints_of : List Interface → List Endpoint
endpoints_of [] = []
endpoints_of (usb ∷ usbs) =
    endpoints_all (take usb.num_altsetting (settings_of usb.altsetting)) ++ endpoints_of usbs

abbrev pub config_endpoints : Config → List Endpoint
config_endpoints config = elim config.interfaces [
  | none ↦ []
  | some usbs ↦ endpoints_of (take config.b_num_interfaces usbs)
]

-- Each count is within its array.
abbrev FitsEndpoints : ℕ → Option (List Endpoint) → Type 0
FitsEndpoints n none = n ≡ 0
FitsEndpoints n (some eps) = n ≤ length eps

abbrev FitsAlt : AltSetting → Type 0
FitsAlt alt = FitsEndpoints alt.b_num_endpoints alt.endpoints

abbrev FitsSettings : ℕ → Array AltSetting → Type 0
FitsSettings n null = n ≡ 0
FitsSettings n dangling = n ≡ 0
FitsSettings n (items alts) = (n ≤ length alts) × All FitsAlt alts

abbrev FitsInterface : Interface → Type 0
FitsInterface usb = FitsSettings usb.num_altsetting usb.altsetting

abbrev FitsInterfaces : ℕ → Option (List Interface) → Type 0
FitsInterfaces n none = n ≡ 0
FitsInterfaces n (some usbs) = (n ≤ length usbs) × All FitsInterface usbs

abbrev pub Fits : Config → Type 0
Fits config = FitsInterfaces config.b_num_interfaces config.interfaces

-- The first endpoint with the address.
abbrev pub first_at : ℕ → List Endpoint → Option Endpoint
first_at address [] = none
first_at address (ep ∷ eps) =
    let rest = first_at address eps in if ep.b_endpoint_address == address then some ep else rest

abbrev or : Option Endpoint → Option Endpoint → Option Endpoint
or (some ep) o = some ep
or none o = o

first_at-append :
    (a : ℕ) (xs ys : List Endpoint) → first_at a (xs ++ ys) ≡ or (first_at a xs) (first_at a ys)
first_at-append a [] ys = refl
first_at-append a (x ∷ xs) ys = elim (Bool-cases (x.b_endpoint_address == a)) [
  | inl p ↦ rw p refl
  | inr p ↦ rw p (first_at-append a xs ys)
]

or_else-ret : (o p : Option Endpoint) → or_else o (ret p) ≡ ret (or o p)
or_else-ret none p = refl
or_else-ret (some ep) p = refl

search_endpoints_lem :
    (n a : ℕ) (eps : List Endpoint)
    → n ≤ length eps
    → search_endpoints n a eps ≡ ret (first_at a (take n eps))
unfolding search_endpoints
search_endpoints_lem zero a eps h = refl
search_endpoints_lem (suc n) a [] h = absurd (omega arith)
search_endpoints_lem (suc n) a (ep ∷ eps) h = elim (Bool-cases (ep.b_endpoint_address == a)) [
  | inl p ↦ rw p refl
  | inr p ↦ rw p (search_endpoints_lem n a eps (omega arith))
]

search_array_lem :
    (n a : ℕ) (o : Option (List Endpoint))
    → FitsEndpoints n o
    → search_array n a o ≡ ret (first_at a (counted n o))
unfolding search_array
search_array_lem zero a none h = refl
search_array_lem (suc n) a none h = absurd (omega arith)
search_array_lem zero a (some eps) h = search_endpoints_lem zero a eps h
search_array_lem (suc n) a (some eps) h = search_endpoints_lem (suc n) a eps h

search_settings_lem :
    (n a : ℕ) (alts : List AltSetting)
    → n ≤ length alts
    → All FitsAlt alts
    → search_settings n a alts ≡ ret (first_at a (endpoints_all (take n alts)))
unfolding search_settings
search_settings_lem zero a alts h hs = refl
search_settings_lem (suc n) a [] h hs = absurd (omega arith)
search_settings_lem (suc n) a (alt ∷ alts) h hs =
    rw
      (
        search_array_lem alt.b_num_endpoints a alt.endpoints hs.0,
        search_settings_lem n a alts (omega arith) hs.1,
        first_at-append a (endpoints_in alt) (endpoints_all (take n alts)),
      )
      (or_else-ret (first_at a (endpoints_in alt)) (first_at a (endpoints_all (take n alts))))

search_interface_lem :
    (n a : ℕ) (alts : Array AltSetting)
    → FitsSettings n alts
    → search_interface n a alts ≡ ret (first_at a (endpoints_all (take n (settings_of alts))))
unfolding search_interface
search_interface_lem zero a alts h = refl
search_interface_lem (suc n) a null h = absurd (omega arith)
search_interface_lem (suc n) a dangling h = absurd (omega arith)
search_interface_lem (suc n) a (items alts) h = search_settings_lem (suc n) a alts h.0 h.1

search_interfaces_lem :
    (n a : ℕ) (usbs : List Interface)
    → n ≤ length usbs
    → All FitsInterface usbs
    → search_interfaces n a usbs ≡ ret (first_at a (endpoints_of (take n usbs)))
unfolding search_interfaces
search_interfaces_lem zero a usbs h hs = refl
search_interfaces_lem (suc n) a [] h hs = absurd (omega arith)
search_interfaces_lem (suc n) a (usb ∷ usbs) h hs =
    let here = endpoints_all (take usb.num_altsetting (settings_of usb.altsetting)) in
    rw
      (
        search_interface_lem usb.num_altsetting a usb.altsetting hs.0,
        search_interfaces_lem n a usbs (omega arith) hs.1,
        first_at-append a here (endpoints_of (take n usbs)),
      )
      (or_else-ret (first_at a here) (first_at a (endpoints_of (take n usbs))))

-- On a configuration whose counts are within its arrays, `find_endpoint` reads no memory that it
-- should not, and returns the first endpoint with the address among those that the counts cover, in
-- the order of interfaces, settings and endpoints, or none if none has it.
pub find_endpoint-IsFirst :
    (config : Config) (a : ℕ)
    → Fits config
    → find_endpoint config a ≡ ret (first_at a (config_endpoints config))
unfolding find_endpoint
find_endpoint-IsFirst config a h = by_interfaces config.interfaces h
  where
    by_interfaces :
        (o : Option (List Interface))
        → FitsInterfaces config.b_num_interfaces o
        → find_endpoint (record config { interfaces = o }) a
          ≡ ret (first_at a (config_endpoints (record config { interfaces = o })))
    by_interfaces none h = let z : (config.b_num_interfaces == 0) ≡ true = ground arith in rw z refl
    by_interfaces (some usbs) h = search_interfaces_lem config.b_num_interfaces a usbs h.0 h.1
