-- ===== src/Core/Endpoints.antt =====
-- Endpoints of a parsed configuration: `find_endpoint`, `libusb_get_max_packet_size` and
-- `libusb_get_max_iso_packet_size` of libusb/libusb/core.c.
pub mod Search
use zerousb.Prelude.{
  ℕ, zero, suc, ◌+◌, ◌*◌, ◌/◌, ◌%◌, ◌==◌, ◌||◌, Bool, Option, none, some, List, [], ◌∷◌, take,
  Outcome, ret, fault, overrun, null_deref, use_after_free, ◌>>=◌, if◌then◌else◌,
}
use zerousb.Usb.{Error, not_found, other, Result, ok, err}
use zerousb.Descriptor.Endpoint.{Endpoint}
use zerousb.Descriptor.Interface.Setting.{AltSetting, Array, null, dangling, items, Interface}
use zerousb.Descriptor.Config.{Config}

-- for (ep_idx = 0; ep_idx < altsetting->bNumEndpoints; ep_idx++) with `n` entries left.
unfoldable pub search_endpoints : ℕ → ℕ → List Endpoint → Outcome (Option Endpoint)
search_endpoints zero address eps = ret none
search_endpoints (suc n) address [] = fault overrun
search_endpoints (suc n) address (ep ∷ eps) =
    let rest = search_endpoints n address eps in
    if ep.b_endpoint_address == address then ret (some ep) else rest

-- The endpoints of a setting: a NULL array is read only if bNumEndpoints is above 0.
unfoldable pub search_array : ℕ → ℕ → Option (List Endpoint) → Outcome (Option Endpoint)
unfolding search_endpoints
search_array zero address none = ret none
search_array (suc n) address none = fault null_deref
search_array n address (some eps) = search_endpoints n address eps

-- return ep, or the next round.
abbrev pub or_else : Option Endpoint → Outcome (Option Endpoint) → Outcome (Option Endpoint)
or_else (some ep) rest = ret (some ep)
or_else none rest = rest

-- for (altsetting_idx = 0; altsetting_idx < iface->num_altsetting; altsetting_idx++)
unfoldable pub search_settings : ℕ → ℕ → List AltSetting → Outcome (Option Endpoint)
unfolding search_array
search_settings zero address alts = ret none
search_settings (suc n) address [] = fault overrun
search_settings (suc n) address (alt ∷ alts) = do
  found ← search_array alt.b_num_endpoints address alt.endpoints
  or_else found (search_settings n address alts)

unfoldable pub search_interface : ℕ → ℕ → Array AltSetting → Outcome (Option Endpoint)
unfolding search_settings
search_interface zero address alts = ret none
search_interface (suc n) address null = fault null_deref
search_interface (suc n) address dangling = fault use_after_free
search_interface (suc n) address (items alts) = search_settings (suc n) address alts

-- for (iface_idx = 0; iface_idx < config->bNumInterfaces; iface_idx++)
unfoldable pub search_interfaces : ℕ → ℕ → List Interface → Outcome (Option Endpoint)
unfolding search_interface
search_interfaces zero address usbs = ret none
search_interfaces (suc n) address [] = fault overrun
search_interfaces (suc n) address (usb ∷ usbs) = do
  found ← search_interface usb.num_altsetting address usb.altsetting
  or_else found (search_interfaces n address usbs)

unfoldable pub find_endpoint : Config → ℕ → Outcome (Option Endpoint)
unfolding search_interfaces
find_endpoint config address = elim config.interfaces [
  | none ↦ if config.b_num_interfaces == 0 then ret none else fault null_deref
  | some usbs ↦ search_interfaces config.b_num_interfaces address usbs
]

-- `active` is what libusb_get_active_config_descriptor answers.
unfoldable pub get_max_packet_size : Result Config → ℕ → Outcome (Result ℕ)
get_max_packet_size (err x) address = ret (err other)
get_max_packet_size (ok config) address = do
  found ← find_endpoint config address
  elim found [ none ↦ ret (err not_found) | some ep ↦ ret (ok ep.w_max_packet_size) ]

-- enum libusb_transfer_type
abbrev pub type_isochronous : ℕ
type_isochronous = 1

abbrev pub type_interrupt : ℕ
type_interrupt = 3

-- bmAttributes & 0x3, val & 0x07ff and (val >> 11) & 3.
unfoldable pub iso_packet_size : Endpoint → ℕ
iso_packet_size ep =
    let val = ep.w_max_packet_size in
    let ep_type = ep.bm_attributes % 4 in
    if ep_type == type_isochronous || ep_type == type_interrupt
    then val % 2048 * (1 + val / 2048 % 4)
    else val % 2048

unfoldable pub get_max_iso_packet_size : Result Config → ℕ → Outcome (Result ℕ)
unfolding iso_packet_size
get_max_iso_packet_size (err x) address = ret (err other)
get_max_iso_packet_size (ok config) address = do
  found ← find_endpoint config address
  elim found [ none ↦ ret (err not_found) | some ep ↦ ret (ok (iso_packet_size ep)) ]
