-- ===== src/Search/Handles.antt =====
-- The handles that `open_usb_dev` and `close_usb_dev` (usbutil.c) hold.
use libtopfield.Base.{
  ◌⊎◌, inl, inr, Bool-cases, ℕ, ◌+◌, ◌-◌, ◌≡◌, ap, ◌∙◌, arith, Bool, true, false, Option, none,
  some, if◌then◌else◌,
}
use libtopfield.Base.Int.{pos, ==ℤ_iff}
use libtopfield.Search.{
  UsbDevice, Libusb, is_wanted, scan_busses, open_found, open_usb_dev, close_usb_dev,
}

-- What libusb promises of the open handles and of the claim on the interface.
pub record Counts {W : Type 0} (libusb : Libusb W) (handles : W → ℕ) (claimed : W → Bool)
    : Type 0 where
  pub find_keeps : (w : W) → handles (libusb.find_devices w) ≡ handles w
  pub opens :
      (w : W) (d : UsbDevice)
      → handles (libusb.usb_open w d).1
        ≡ (if (libusb.usb_open w d).0 then handles w + 1 else handles w)
  pub claim_keeps : (w : W) → handles (libusb.claim_interface w).1 ≡ handles w
  pub claims :
      (w : W) → (libusb.claim_interface w).0 ≡ pos 0 → claimed (libusb.claim_interface w).1 ≡ true
  pub release_keeps : (w : W) → handles (libusb.release_interface w) ≡ handles w
  pub closes : (w : W) → handles (libusb.close w) ≡ handles w - 1

-- What holds of a call that opens a device, by its result.
record Settles {W : Type 0} (libusb : Libusb W) (handles : W → ℕ) (claimed : W → Bool) (w : W)
    (r : Bool × W) : Type 0 where
  pub opened : r.0 ≡ true → handles (r.1) ≡ handles w + 1
  pub claim : r.0 ≡ true → claimed (r.1) ≡ true
  pub refused : r.0 ≡ false → handles (r.1) ≡ handles w
  pub closing : r.0 ≡ true → handles (close_usb_dev libusb (r.1)) ≡ handles w

open_found-Settles :
    {W : Type 0} (libusb : Libusb W) (handles : W → ℕ) (claimed : W → Bool)
    → Counts libusb handles claimed
    → (d : UsbDevice) (w : W) → Settles libusb handles claimed w (open_found libusb d w)
unfolding open_found close_usb_dev
open_found-Settles libusb handles claimed g d w =
    let devh = libusb.usb_open w d in
    let claim = libusb.claim_interface (devh.1) in
    let opens = g.opens w d in
    let same = g.claim_keeps (devh.1) in
    let claims = g.claims (devh.1) in
    let back = g.closes (claim.1) in
    let released = g.release_keeps (claim.1) in
    let closed = g.closes (libusb.release_interface (claim.1)) in
    let zero_is = ==ℤ_iff (claim.0) (pos 0) in
    record {
      opened = ground (arith, opens, same);
      claim = ground (arith, claims, zero_is);
      refused = ground (arith, opens, same, back);
      closing = ground (arith, opens, same, released, closed);
    }

-- The two ways that the search ends.
found-Settles :
    {W : Type 0} (libusb : Libusb W) (handles : W → ℕ) (claimed : W → Bool)
    → Counts libusb handles claimed
    → (o : Option UsbDevice) (w t : W) → handles t ≡ handles w
    → Settles libusb handles claimed w
        (elim o [ none ↦ (false, t) | some d ↦ open_found libusb d t ])
found-Settles libusb handles claimed g none w t kept = record {
  opened = λ e. cc;
  claim = λ e. cc;
  refused = λ e. kept;
  closing = λ e. cc;
}
found-Settles libusb handles claimed g (some d) w t kept =
    let b = open_found-Settles libusb handles claimed g d t in
    record {
      opened = λ e. b.opened e ∙ ap (λ n. n + 1) kept;
      claim = b.claim;
      refused = λ e. b.refused e ∙ kept;
      closing = λ e. b.closing e ∙ kept;
    }

-- One handle more, with the interface claimed, that `close_usb_dev` closes, or as many handles as
-- before.
pub record Balances {W : Type 0} (libusb : Libusb W) (handles : W → ℕ) (claimed : W → Bool) (w : W)
    (r : Bool × W) : Type 0 where
  pub outcome :
      ((r.0 ≡ true)
        × (handles (r.1) ≡ handles w + 1)
        × (claimed (r.1) ≡ true)
        × (handles (close_usb_dev libusb (r.1)) ≡ handles w))
      ⊎ ((r.0 ≡ false) × (handles (r.1) ≡ handles w))

-- On every way out of `open_usb_dev`, for libusb as `Counts` has it: a handle that is given is one
-- more open handle, with the interface claimed, and `close_usb_dev` takes it back; where none is
-- given, as many are open as before.
pub open_usb_dev-Balances :
    {W : Type 0} (libusb : Libusb W) (handles : W → ℕ) (claimed : W → Bool)
    → Counts libusb handles claimed
    → (vendor_id product_id index : ℕ) (w : W)
    → Balances libusb handles claimed w (open_usb_dev libusb vendor_id product_id index w)
unfolding open_usb_dev
open_usb_dev-Balances libusb handles claimed g vendor_id product_id index w =
    let listed = libusb.find_devices w in
    let searched = scan_busses (is_wanted vendor_id product_id) index 0 (libusb.busses listed) in
    let s = found-Settles libusb handles claimed g searched w listed (g.find_keeps w) in
    elim (Bool-cases (open_usb_dev libusb vendor_id product_id index w).0) [
      | inl given ↦ record { outcome = inl (given, s.opened given, s.claim given, s.closing given) }
      | inr refused ↦ record { outcome = inr (refused, s.refused refused) }
    ]
