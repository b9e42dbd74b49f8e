-- ===== src/Tests/Devices.antt =====
-- Claimed interfaces, endpoints and hotplug callbacks: libusb/libusb/core.c and
-- libusb/libusb/hotplug.c.
use zerousb.Prelude.{
  fault, null_deref, bad_shift, ℕ, pos, negsuc, ◌≡◌, refl, true, false, none, some, List, [], ◌∷◌,
  arith, Returns, ret, test_bit, zero, suc, ◌==◌,
}
use zerousb.Usb.{ok, err, no_mem}
use zerousb.Descriptor.Endpoint.{Endpoint, zero_endpoint}
use zerousb.Descriptor.Interface.Setting.{AltSetting, items}
use zerousb.Descriptor.Config.{Config}
use zerousb.Core.Claims.{Handle, Backend, claim_interface}
use zerousb.Core.Claims.Refinement.{
  Interfaces, Represents, Call, claim, release, alt_setting, perform_all, steps, MatchesAll,
  perform_all-Matches,
}
use zerousb.Core.Endpoints.{find_endpoint}
use zerousb.Core.Endpoints.Search.{find_endpoint-IsFirst}
use zerousb.Hotplug.{
  arrived, Device, Callback, Context, Answers, hotplug_match, deregister_callback,
  hotplug_deregister, keep_unmarked,
}
use zerousb.Hotplug.Register.{register_callback}
use zerousb.Hotplug.Registry.{marked_at, hotplug_match-marked}
use zerousb.Hotplug.RoundTrip.{register_callback-deregister_callback}

-- A backend that counts its calls and grants all.
abbrev willing : Backend ℕ
willing = record {
  claim_interface = λ n s. (none, suc s);
  release_interface = λ n s. (none, suc s);
  set_interface_altsetting = λ n t s. (none, suc s);
}

abbrev fresh : Handle
fresh = record { attached = true; claimed_interfaces = 0 }

abbrev no_interfaces : Interfaces
no_interfaces n = false

abbrev calls : List Call
calls = claim 3 ∷ claim 3 ∷ alt_setting 3 1 ∷ release 3 ∷ release 40 ∷ []

test_bit-zero : (j : ℕ) → test_bit 0 j ≡ false
unfolding test_bit
test_bit-zero zero = refl
test_bit-zero (suc j) = test_bit-zero j

zero-Represents : Represents fresh no_interfaces
zero-Represents j = test_bit-zero j

perform_all-Matches_example :
    Returns
      (perform_all willing calls fresh 0)
      (MatchesAll willing (steps willing true calls no_interfaces 0))
perform_all-Matches_example =
    perform_all-Matches willing calls fresh no_interfaces 0 zero-Represents

abbrev bulk_in : Endpoint
bulk_in = record zero_endpoint { b_endpoint_address = 0x81; w_max_packet_size = 64 }

abbrev setting : AltSetting
setting = record {
  b_length = 9;
  b_descriptor_type = 4;
  b_interface_number = 0;
  b_alternate_setting = 0;
  b_num_endpoints = 1;
  b_interface_class = 255;
  b_interface_sub_class = 0;
  b_interface_protocol = 0;
  i_interface = 0;
  endpoints = some (bulk_in ∷ []);
  extra = [];
}

abbrev config : Config
config = record {
  b_length = 9;
  b_descriptor_type = 2;
  w_total_length = 25;
  b_num_interfaces = 1;
  b_configuration_value = 1;
  i_configuration = 0;
  bm_attributes = 128;
  max_power = 50;
  interfaces = some (record { altsetting = items (setting ∷ []); num_altsetting = 1 } ∷ []);
  extra = [];
}

find_endpoint-IsFirst_example : find_endpoint config 0x81 ≡ ret (some bulk_in)
find_endpoint-IsFirst_example =
    find_endpoint-IsFirst config 0x81 (omega arith, ((omega arith, (omega arith, tt)), tt))

-- A setting that a short descriptor cut off: the count is the device's, and there is no array.
abbrev cut_config : Config
cut_config = record config {
  interfaces = some (
      record { altsetting = items (record setting { endpoints = none } ∷ []); num_altsetting = 1 }
      ∷ []);
}

find_endpoint-cut : find_endpoint cut_config 0x81 ≡ fault null_deref
unfolding find_endpoint
find_endpoint-cut = refl

-- A negative number passes the guard and reaches the shift.
claim_interface-negative : claim_interface willing fresh (negsuc 0) 0 ≡ fault bad_shift
unfolding claim_interface
claim_interface-negative = refl

-- Callbacks are named by numbers; the one with the number 7 deregisters handle 1 and asks to go.
abbrev answers : Answers ℕ
answers f dev event = (f == 7, 1 ∷ [])

abbrev entry : ℕ → ℕ → ℕ → Callback ℕ
entry flags f h = record {
  flags = flags;
  vendor_id = 0;
  product_id = 0;
  dev_class = 0;
  cb = f;
  handle = h;
}

abbrev stick : Device
stick = record { id_vendor = 0x534c; id_product = 1; b_device_class = 0 }

-- Handle 2 is marked; 64 is USBI_HOTPLUG_NEEDS_FREE.
abbrev registered : Context ℕ
registered = record {
  hotplug_cbs = entry 1 7 3 ∷ entry 65 8 2 ∷ entry 3 9 1 ∷ [];
  next_hotplug_cb_handle = 4;
  hotplug_msgs = [];
  event_flags = 0;
  device_close = 0;
  completed = false;
  signals = 0;
}

registered-marked : marked_at 2 registered.hotplug_cbs ≡ true
unfolding test_bit
registered-marked = refl

hotplug_match-marked_example :
    marked_at 2 (hotplug_match answers stick arrived registered).hotplug_cbs ≡ true
hotplug_match-marked_example =
    hotplug_match-marked answers stick arrived 2 registered registered-marked

register_callback-deregister_callback_example :
    let (r, ctx') =
      register_callback answers true true
        (err no_mem)
        1
        0
        (pos 0x534c)
        (negsuc 0)
        (negsuc 0)
        (some 5)
        registered in
    (r ≡ ok 4)
    × ((hotplug_deregister false (deregister_callback true 4 ctx')).hotplug_cbs
        ≡ keep_unmarked registered.hotplug_cbs)
register_callback-deregister_callback_example =
    register_callback-deregister_callback answers (err no_mem) 1 (pos 0x534c) (negsuc 0) (negsuc 0)
      5 registered (omega arith) (omega arith) refl refl refl
      (
        (λ e. absurd (omega arith)),
        ((λ e. absurd (omega arith)), ((λ e. absurd (omega arith)), tt)),
      )
