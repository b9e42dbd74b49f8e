-- ===== src/Usb.antt =====
-- The codes and limits of libusb/libusb/libusb.h and libusb/libusb/libusbi.h that several parts use.
use zerousb.Prelude.{ℕ, ◌≡◌, refl, ◌⊎◌, inl, inr}

-- `enum libusb_error` without LIBUSB_SUCCESS: the negative values that a call returns.
pub data Error : Type 0 where
  io invalid_param access no_device not_found busy timeout overflow pipe interrupted : Error
  no_mem not_supported other : Error

-- The `int` that a call returns: a value that is at least 0, or an error code.
pub data Result {ℓ} (A : Type ℓ) : Type ℓ where
  ok : A → Result A
  err : Error → Result A

pub Result-cases {ℓ} :
    {A : Type ℓ} (r : Result A) → ((x : Error) × (r ≡ err x)) ⊎ ((a : A) × (r ≡ ok a))
Result-cases (err x) = inl (x, refl)
Result-cases (ok a) = inr (a, refl)

-- LIBUSB_SUCCESS, for calls that return no other value.
pub data Success : Type 0 where
  success : Success

-- enum libusb_descriptor_type
abbrev pub dt_device : ℕ
dt_device = 0x01

abbrev pub dt_config : ℕ
dt_config = 0x02

abbrev pub dt_string : ℕ
dt_string = 0x03

abbrev pub dt_interface : ℕ
dt_interface = 0x04

abbrev pub dt_endpoint : ℕ
dt_endpoint = 0x05

abbrev pub dt_bos : ℕ
dt_bos = 0x0f

abbrev pub dt_device_capability : ℕ
dt_device_capability = 0x10

abbrev pub dt_ss_endpoint_companion : ℕ
dt_ss_endpoint_companion = 0x30

-- USB_MAXENDPOINTS, USB_MAXINTERFACES and USB_MAXCONFIG
abbrev pub max_endpoints : ℕ
max_endpoints = 32

abbrev pub max_interfaces : ℕ
max_interfaces = 32

abbrev pub max_config : ℕ
max_config = 8
