-- ===== src/Core/Claims.antt =====
-- The interfaces that a handle has claimed: `libusb_claim_interface`, `libusb_release_interface` and
-- `libusb_set_interface_alt_setting` of libusb/libusb/core.c.
pub mod Refinement
use zerousb.Prelude.{
  ℕ, ℤ, pos, negsuc, Bool, true, false, not, leb, if◌then◌else◌, Option, none, some, Outcome, ret,
  fault, bad_shift, ◌>>=◌, test_bit, set_bit, clear_bit,
}
use zerousb.Usb.{
  Error, Success, success, invalid_param, no_device, not_found, Result, ok, err, max_interfaces,
}

-- `struct libusb_device_handle` with its device's `attached`. Of claimed_interfaces the low 32 bits:
-- `1 << 31` is extended by its sign, so that bits 31 and above move together.
pub record Handle : Type 0 where
  pub attached : Bool
  pub claimed_interfaces : ℕ

-- usbi_backend's functions, which work on a state of the operating system's: the answer is an error
-- or success.
pub record Backend (S : Type 0) : Type 0 where
  pub claim_interface : ℕ → S → Option Error × S
  pub release_interface : ℕ → S → Option Error × S
  pub set_interface_altsetting : ℕ → ℕ → S → Option Error × S

module _ {S : Type 0} where
  -- if (r == 0) dev_handle->claimed_interfaces |= 1 << interface_number;
  abbrev pub claim_answer : ℕ → Handle → Option Error × S → Result Success × Handle × S
  claim_answer n d (none, s) =
      (ok success, record d { claimed_interfaces = set_bit d.claimed_interfaces n }, s)
  claim_answer n d (some x, s) = (err x, d, s)

  -- if (r == 0) dev_handle->claimed_interfaces &= ~(1 << interface_number);
  abbrev pub release_answer : ℕ → Handle → Option Error × S → Result Success × Handle × S
  release_answer n d (none, s) =
      (ok success, record d { claimed_interfaces = clear_bit d.claimed_interfaces n }, s)
  release_answer n d (some x, s) = (err x, d, s)

  abbrev pub plain_answer : Handle → Option Error × S → Result Success × Handle × S
  plain_answer d (none, s) = (ok success, d, s)
  plain_answer d (some x, s) = (err x, d, s)

  -- The guard on the number refuses those above 31 only.
  unfoldable pub claim_interface :
      Backend S → Handle → ℤ → S → Outcome (Result Success × Handle × S)
  claim_interface b d (pos n) s =
      if leb max_interfaces n
      then ret (err invalid_param, d, s)
      else if not d.attached
      then ret (err no_device, d, s)
      else if test_bit d.claimed_interfaces n
      then ret (ok success, d, s)
      else ret (claim_answer n d (b.claim_interface n s))
  claim_interface b d (negsuc n) s =
      if not d.attached then ret (err no_device, d, s) else fault bad_shift

  unfoldable pub release_interface :
      Backend S → Handle → ℤ → S → Outcome (Result Success × Handle × S)
  release_interface b d (pos n) s =
      if leb max_interfaces n
      then ret (err invalid_param, d, s)
      else if not (test_bit d.claimed_interfaces n)
      then ret (err not_found, d, s)
      else ret (release_answer n d (b.release_interface n s))
  release_interface b d (negsuc n) s = fault bad_shift

  unfoldable pub set_interface_alt_setting :
      Backend S → Handle → ℤ → ℕ → S → Outcome (Result Success × Handle × S)
  set_interface_alt_setting b d (pos n) alternate_setting s =
      if leb max_interfaces n
      then ret (err invalid_param, d, s)
      else if not d.attached
      then ret (err no_device, d, s)
      else if not (test_bit d.claimed_interfaces n)
      then ret (err not_found, d, s)
      else ret (plain_answer d (b.set_interface_altsetting n alternate_setting s))
  set_interface_alt_setting b d (negsuc n) alternate_setting s =
      if not d.attached then ret (err no_device, d, s) else fault bad_shift
