-- ===== src/Tests/Requests.antt =====
-- Requests to a device that answers as it should, through libusb/libusb/descriptor.c.
use zerousb.Prelude.{
  ℕ, ◌≡◌, Bool-cases, inl, inr, refl, true, List, [], ◌∷◌, ret, Returns, Guarded, arith, ◌==◌,
  if◌then◌else◌,
}
use zerousb.Usb.{Result, ok, dt_string}
use zerousb.Descriptor.Format.{bus}
use zerousb.Descriptor.Heap.{Grants, Heap}
use zerousb.Descriptor.Chain.{Desc, encode}
use zerousb.Descriptor.Endpoint.{Endpoint, zero_endpoint}
use zerousb.Descriptor.Interface.Ownership.{Refuses}
use zerousb.Descriptor.Companion.{get_ss_endpoint_companion}
use zerousb.Descriptor.Companion.Search.{companion, parsed, get_ss_endpoint_companion-finds}
use zerousb.Descriptor.Bos.{parse_bos}
use zerousb.Descriptor.Bos.Accounts.{BosPost, parse_bos-BosPost}
use zerousb.Descriptor.Strings.{Buffer, get_string_descriptor_ascii}
use zerousb.Descriptor.Strings.Ascii.{
  string_descriptor, get_string_descriptor_ascii-string_descriptor,
}
use zerousb.Descriptor.Strings.Bounds.{IsTame, Text, get_string_descriptor_ascii-Text}
use zerousb.Descriptor.Fetch.{Request, get_config_index_by_value, get_config_descriptor}
use zerousb.Descriptor.Fetch.Index.{Finds, get_config_index_by_value-Finds}
use zerousb.Descriptor.Fetch.Memory.{Fetched, get_config_descriptor-Fetched}

abbrev always : Grants
always n = true

abbrev no_blocks : Heap
no_blocks = record { calls = 0; live = 0 }

-- A class-specific descriptor before the companion.
abbrev specific : Desc
specific = record { kind = 0x25; body = 1 ∷ [] }

abbrev extended : Endpoint
extended = record zero_endpoint {
  extra = encode (specific ∷ []) (encode (companion 3 0 0 4 [] ∷ []) []);
}

get_ss_endpoint_companion-finds_example :
    get_ss_endpoint_companion always extended no_blocks
    ≡ ret (ok (parsed 3 0 0 4 []), record { calls = 1; live = 1 })
get_ss_endpoint_companion-finds_example =
    get_ss_endpoint_companion-finds always extended (specific ∷ []) 3 0 0 4 [] [] no_blocks refl
      ((λ e. absurd (omega arith)), tt) refl

-- A BOS with one capability.
abbrev bos_bytes : List ℕ
bos_bytes = 5 ∷ 15 ∷ 12 ∷ 0 ∷ 1 ∷ 7 ∷ 16 ∷ 2 ∷ 2 ∷ 0 ∷ 0 ∷ 0 ∷ []

parse_bos-BosPost_example :
    Returns
      (parse_bos always (record { buffer = bos_bytes; size = 12 }) bus no_blocks)
      (BosPost 12 0)
parse_bos-BosPost_example =
    parse_bos-BosPost always (record { buffer = bos_bytes; size = 12 }) bus no_blocks (omega arith)

-- One language, and one string.
abbrev strings : ℕ → ℕ → Result (List ℕ)
strings index langid =
    if index == 0 then ok (4 ∷ 3 ∷ 9 ∷ 4 ∷ []) else ok (string_descriptor (b'H' ∷ b'i' ∷ []))

abbrev zeros : Buffer
zeros i = 0

get_string_descriptor_ascii-string_descriptor_example :
    get_string_descriptor_ascii strings zeros 1 10 ≡ ret (ok (b'H' ∷ b'i' ∷ []))
get_string_descriptor_ascii-string_descriptor_example =
    get_string_descriptor_ascii-string_descriptor strings zeros 1 10 (4 ∷ 3 ∷ 9 ∷ 4 ∷ [])
      (b'H' ∷ b'i' ∷ []) (λ e. absurd (omega arith)) refl (omega arith) (λ langid. refl)
      (omega arith, (omega arith, tt)) (omega arith) (omega arith)

ok-injective : {xs ys : List ℕ} → ok xs ≡ ok ys → xs ≡ ys
ok-injective e = cc

strings-IsTame : IsTame strings
strings-IsTame index langid bytes e = elim (Bool-cases (index == 0)) [
  | inl p ↦ rw⁻¹ (ok-injective (rw p at e)) (omega arith)
  | inr p ↦ rw⁻¹ (ok-injective (rw p at e)) (omega arith)
]

get_string_descriptor_ascii-Text_example :
    Returns (get_string_descriptor_ascii strings zeros 1 10) (Text 10)
get_string_descriptor_ascii-Text_example =
    get_string_descriptor_ascii-Text strings zeros 1 10 strings-IsTame (omega arith)

abbrev string_bytes : Buffer
string_bytes i = if i == 1 then dt_string else 2

-- Two configurations of values 1 and 2, whose descriptors have no interface.
abbrev two_configs : ℕ → Request
two_configs i n = (ok (9 ∷ 2 ∷ 9 ∷ 0 ∷ 0 ∷ (if i == 0 then 1 else 2) ∷ 0 ∷ 128 ∷ 50 ∷ []), bus)

get_config_index_by_value-Finds_example :
    Finds two_configs (λ i. 0) 2 0 2 (get_config_index_by_value two_configs (λ i. 0) 2 2)
get_config_index_by_value-Finds_example = get_config_index_by_value-Finds two_configs (λ i. 0) 2 2

get_config_descriptor-Fetched_example :
    Guarded (Refuses always) (get_config_descriptor always 2 two_configs 1 no_blocks) (Fetched 0)
get_config_descriptor-Fetched_example =
    get_config_descriptor-Fetched always 2 two_configs 1 no_blocks
