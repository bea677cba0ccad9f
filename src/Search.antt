-- ===== src/Search.antt =====
-- usbutil.c: the search for a device on the busses that libusb lists, and its opening and closing.
--
-- libusb's calls stand behind the record `Libusb`, over a world `W`; each gives its result and the
-- world after it. `busses w` are the devices of each bus after `usb_find_devices`.
pub mod Handles
pub mod Nth
pub mod Proc
use libtopfield.Base.{
  ℕ, zero, suc, ◌+◌, Bool, true, false, not, List, [], ◌∷◌, Option, none, some, ◌==◌, ◌&&◌,
  if◌then◌else◌,
}
use libtopfield.Base.Int.{ℤ, pos, ◌==ℤ◌}

-- `number` tells devices apart that have one vendor and product.
pub record UsbDevice : Type 0 where
  pub id_vendor : ℕ
  pub id_product : ℕ
  pub number : ℕ

unfoldable pub is_wanted : ℕ → ℕ → UsbDevice → Bool
is_wanted vendor_id product_id d = (d.id_vendor == vendor_id) && (d.id_product == product_id)

-- The inner loop, over the devices of a bus: the device that was found and the count after it.
unfoldable pub scan_devices : (UsbDevice → Bool) → ℕ → ℕ → List UsbDevice → Option UsbDevice × ℕ
scan_devices wanted index count [] = (none, count)
scan_devices wanted index count (d ∷ devices) =
    let passed = scan_devices wanted index count devices in
    let counted = scan_devices wanted index (count + 1) devices in
    if wanted d then (if count == index then (some d, count + 1) else counted) else passed

-- The outer loop, over the busses.
unfoldable pub scan_busses : (UsbDevice → Bool) → ℕ → ℕ → List (List UsbDevice) → Option UsbDevice
scan_busses wanted index count [] = none
scan_busses wanted index count (devices ∷ busses) =
    let r = scan_devices wanted index count devices in
    let later = scan_busses wanted index (r.1) busses in
    elim (r.0) [ some d ↦ some d | none ↦ later ]

pub record Libusb (W : Type 0) : Type 0 where
  pub find_devices : W → W
  pub busses : W → List (List UsbDevice)
  pub usb_open : W → UsbDevice → Bool × W
  pub claim_interface : W → ℤ × W
  pub release_interface : W → W
  pub close : W → W

module _ {W : Type 0} (libusb : Libusb W) where
  -- Opens a device and claims its interface: whether there is a handle, and the world.
  unfoldable pub open_found : UsbDevice → W → Bool × W
  open_found d w =
      let devh = libusb.usb_open w d in
      let claimed = libusb.claim_interface (devh.1) in
      if not (devh.0)
      then (false, devh.1)
      else if claimed.0 ==ℤ pos 0
      then (true, claimed.1)
      else (false, libusb.close (claimed.1))

  unfoldable pub open_usb_dev : ℕ → ℕ → ℕ → W → Bool × W
  open_usb_dev vendor_id product_id index w =
      let listed = libusb.find_devices w in
      elim (scan_busses (is_wanted vendor_id product_id) index 0 (libusb.busses listed)) [
        | none ↦ (false, listed)
        | some d ↦ open_found d listed
      ]

  -- The build for kernels from 2.6.11 on.
  unfoldable pub close_usb_dev : W → W
  close_usb_dev w = libusb.close (libusb.release_interface w)
