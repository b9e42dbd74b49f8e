-- ===== src/Descriptor/Interface/Setting.antt =====
-- `struct libusb_interface_descriptor`, `struct libusb_interface` and `clear_interface` of
-- libusb/libusb/descriptor.c.
use zerousb.Prelude.{
  ℕ, ◌+◌, Option, none, some, List, [], ◌∷◌, Outcome, ret, fault, use_after_free, take, replicate,
}
use zerousb.Descriptor.Format.{Letter, byte, Writes, field_at}
use zerousb.Descriptor.Heap.{Heap, free, block}
use zerousb.Descriptor.Endpoint.{Endpoint}

-- `endpoints` is NULL or an array; b_num_endpoints says how many of its entries count.
pub record AltSetting : Type 0 where
  pub b_length : ℕ
  pub b_descriptor_type : ℕ
  pub b_interface_number : ℕ
  pub b_alternate_setting : ℕ
  pub b_num_endpoints : ℕ
  pub b_interface_class : ℕ
  pub b_interface_sub_class : ℕ
  pub b_interface_protocol : ℕ
  pub i_interface : ℕ
  pub endpoints : Option (List Endpoint)
  pub extra : List ℕ

-- A pointer to an array: `dangling` once the array is freed and the pointer is not cleared.
pub data Array (A : Type 0) : Type 0 where
  null dangling : Array A
  items : List A → Array A

-- `altsetting` holds the settings that num_altsetting counts.
pub record Interface : Type 0 where
  pub altsetting : Array AltSetting
  pub num_altsetting : ℕ

abbrev pub zero_interface : Interface
zero_interface = record { altsetting = null; num_altsetting = 0 }

-- The blocks behind the extra data of endpoints, which `clear_endpoint` frees one by one.
abbrev pub blocks_extra : List Endpoint → ℕ
blocks_extra [] = 0
blocks_extra (ep ∷ eps) = block ep.extra + blocks_extra eps

-- The blocks that the loop of `clear_interface` frees for one setting: the extra data, the endpoint
-- array, and the extra data of the first bNumEndpoints endpoints.
abbrev pub freed_endpoints : ℕ → Option (List Endpoint) → ℕ
freed_endpoints n none = 0
freed_endpoints n (some eps) = blocks_extra (take n eps) + 1

abbrev pub freed_alt : AltSetting → ℕ
freed_alt alt = block alt.extra + freed_endpoints alt.b_num_endpoints alt.endpoints

abbrev pub freed_alts : List AltSetting → ℕ
freed_alts [] = 0
freed_alts (alt ∷ alts) = freed_alt alt + freed_alts alts

-- A dangling array is read (`ifp->extra`), or at the least freed a second time.
unfoldable pub clear_interface : Interface → Heap → Outcome (Interface × Heap)
clear_interface usb h = elim usb.altsetting [
  | null ↦ ret (usb, h)
  | dangling ↦ fault use_after_free
  | items alts ↦
      ret (record usb { altsetting = null }, free (freed_alts (take usb.num_altsetting alts) + 1) h)
]

-- usbi_parse_descriptor(buffer, "bbbbbbbbb", ifp, 0), and `extra` and `endpoint` set to NULL.
abbrev pub interface_format : List Letter
interface_format = replicate 9 byte

abbrev pub store_alt : Writes → AltSetting
store_alt ws = record {
  b_length = field_at ws 0 0;
  b_descriptor_type = field_at ws 1 0;
  b_interface_number = field_at ws 2 0;
  b_alternate_setting = field_at ws 3 0;
  b_num_endpoints = field_at ws 4 0;
  b_interface_class = field_at ws 5 0;
  b_interface_sub_class = field_at ws 6 0;
  b_interface_protocol = field_at ws 7 0;
  i_interface = field_at ws 8 0;
  endpoints = none;
  extra = [];
}
