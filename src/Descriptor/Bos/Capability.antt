-- ===== src/Descriptor/Bos/Capability.antt =====
-- The device capabilities that libusb/libusb/descriptor.c reads out of a capability's block:
-- `libusb_get_usb_2_0_extension_descriptor`, `libusb_get_ss_usb_device_capability_descriptor` and
-- `libusb_get_container_id_descriptor`.
pub mod Safety
use zerousb.Prelude.{
  ℕ, ◌+◌, not, List, [], ◌∷◌, ◌++◌, Outcome, ret, fault, overrun, ◌>>=◌, ltb, if◌then◌else◌, ◌==◌,
  replicate,
}
use zerousb.Usb.{Error, io, no_mem, invalid_param, Result, ok, err}
use zerousb.Descriptor.Format.{
  Letter, byte, word, dword, uuid, bus, Writes, parse_descriptor, field_at, raw_at,
}
use zerousb.Descriptor.Heap.{Grants, Heap, malloc}

-- enum libusb_bos_type
abbrev pub usb_2_0_extension : ℕ
usb_2_0_extension = 2

abbrev pub ss_usb_device_capability : ℕ
ss_usb_device_capability = 3

abbrev pub container_id : ℕ
container_id = 4

pub record Usb20Extension : Type 0 where
  pub b_length : ℕ
  pub b_descriptor_type : ℕ
  pub b_dev_capability_type : ℕ
  pub bm_attributes : ℕ

pub record SsUsbDeviceCapability : Type 0 where
  pub b_length : ℕ
  pub b_descriptor_type : ℕ
  pub b_dev_capability_type : ℕ
  pub bm_attributes : ℕ
  pub w_speed_supported : ℕ
  pub b_functionality_support : ℕ
  pub b_u1_dev_exit_lat : ℕ
  pub b_u2_dev_exit_lat : ℕ

pub record ContainerId : Type 0 where
  pub b_length : ℕ
  pub b_descriptor_type : ℕ
  pub b_dev_capability_type : ℕ
  pub b_reserved : ℕ
  pub id : List ℕ

abbrev pub store_usb_2_0_extension : Writes → Usb20Extension
store_usb_2_0_extension ws = record {
  b_length = field_at ws 0 0;
  b_descriptor_type = field_at ws 1 0;
  b_dev_capability_type = field_at ws 2 0;
  bm_attributes = field_at ws 4 0;
}

abbrev pub store_ss_usb_device_capability : Writes → SsUsbDeviceCapability
store_ss_usb_device_capability ws = record {
  b_length = field_at ws 0 0;
  b_descriptor_type = field_at ws 1 0;
  b_dev_capability_type = field_at ws 2 0;
  bm_attributes = field_at ws 3 0;
  w_speed_supported = field_at ws 4 0;
  b_functionality_support = field_at ws 6 0;
  b_u1_dev_exit_lat = field_at ws 7 0;
  b_u2_dev_exit_lat = field_at ws 8 0;
}

abbrev pub store_container_id : Writes → ContainerId
store_container_id ws = record {
  b_length = field_at ws 0 0;
  b_descriptor_type = field_at ws 1 0;
  b_dev_capability_type = field_at ws 2 0;
  b_reserved = field_at ws 3 0;
  id = raw_at ws 4;
}

-- The three functions differ in the type, the smallest bLength, the format and the structure. The
-- fields bLength and bDevCapabilityType are the bytes 0 and 2 of the capability's block.
module _ {A : Type 0} (kind smallest : ℕ) (format : List Letter) (store : Writes → A) where
  unfoldable pub get_capability : Grants → List ℕ → Heap → Outcome (Result A × Heap)
  get_capability g cap h = do
    (head, n) ← parse_descriptor (replicate 3 byte) cap 0 bus
    let (granted, h') = malloc g h
    if not (field_at head 2 0 == kind)
        then ret (err invalid_param, h)
        else if ltb (field_at head 0 0) smallest
        then ret (err io, h)
        else if not granted
        then ret (err no_mem, h')
        else (do (ws, m) ← parse_descriptor format cap 0 bus; ret (ok (store ws), h'))

unfoldable pub get_usb_2_0_extension :
    Grants → List ℕ → Heap → Outcome (Result Usb20Extension × Heap)
unfolding get_capability
get_usb_2_0_extension =
    get_capability usb_2_0_extension 7 (replicate 3 byte ++ dword ∷ []) store_usb_2_0_extension

unfoldable pub get_ss_usb_device_capability :
    Grants → List ℕ → Heap → Outcome (Result SsUsbDeviceCapability × Heap)
unfolding get_capability
get_ss_usb_device_capability =
    get_capability ss_usb_device_capability 10 (replicate 4 byte ++ word ∷ byte ∷ byte ∷ word ∷ [])
      store_ss_usb_device_capability

unfoldable pub get_container_id : Grants → List ℕ → Heap → Outcome (Result ContainerId × Heap)
unfolding get_capability
get_container_id = get_capability container_id 20 (replicate 4 byte ++ uuid ∷ []) store_container_id
