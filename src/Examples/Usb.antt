-- ===== src/Examples/Usb.antt =====
-- An example of the device search, with two receivers on the busses and one interface that is busy.
use libtopfield.Base.{
  ℕ, ◌+◌, ◌-◌, ◌≡◌, refl, arith, Bool, true, false, [], ◌∷◌, ◌==◌, if◌then◌else◌,
}
use libtopfield.Base.Int.{pos, negsuc}
use libtopfield.Search.{
  UsbDevice, Libusb, is_wanted, scan_devices, scan_busses, open_found, open_usb_dev,
}
use libtopfield.Search.Handles.{Counts, Balances, open_usb_dev-Balances}

record Hub : Type 0 where
  pub handles : ℕ
  pub claimed : Bool
  pub busy : ℕ
  pub current : ℕ

abbrev topfield_device : ℕ → UsbDevice
topfield_device number = record { id_vendor = 0x11db; id_product = 0x1000; number = number }

-- The interface of the device `busy` is held by another process.
abbrev hub_calls : Libusb Hub
hub_calls = record {
  find_devices = λ w. w;
  busses = λ w. (topfield_device 1 ∷ []) ∷ (topfield_device 2 ∷ []) ∷ [];
  usb_open = λ w d. (true, record w { handles = w.handles + 1; current = d.number });
  claim_interface =
      λ w. if w.current == w.busy then (negsuc 15, w) else (pos 0, record w { claimed = true });
  release_interface = λ w. record w { claimed = false };
  close = λ w. record w { handles = w.handles - 1 };
}

abbrev hub_at : Hub
hub_at = record { handles = 4; claimed = false; busy = 1; current = 0 }

hub_calls-Counts : Counts hub_calls (λ w. w.handles) (λ w. w.claimed)
hub_calls-Counts = record {
  find_keeps = λ w. refl;
  opens = λ w d. refl;
  claim_keeps = λ w. ground arith;
  claims = λ w. ground arith;
  release_keeps = λ w. refl;
  closes = λ w. refl;
}

first_is_busy : (open_usb_dev hub_calls 0x11db 0x1000 0 hub_at).0 ≡ false
unfolding open_usb_dev open_found scan_busses scan_devices is_wanted
first_is_busy = refl

second_is_given : (open_usb_dev hub_calls 0x11db 0x1000 1 hub_at).0 ≡ true
unfolding open_usb_dev open_found scan_busses scan_devices is_wanted
second_is_given = refl

open_usb_dev-Balances_example :
    Balances hub_calls
      (λ w. w.handles)
      (λ w. w.claimed)
      hub_at
      (open_usb_dev hub_calls 0x11db 0x1000 1 hub_at)
open_usb_dev-Balances_example =
    open_usb_dev-Balances hub_calls (λ w. w.handles) (λ w. w.claimed) hub_calls-Counts 0x11db 0x1000
      1 hub_at
