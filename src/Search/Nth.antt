-- ===== src/Search/Nth.antt =====
-- The device that the loops of `open_usb_dev` (usbutil.c) find.
use libtopfield.Base.{ℕ, ◌+◌, Bool, List, [], ◌∷◌, ◌++◌, Option, none, some, ◌==◌, if◌then◌else◌}
use libtopfield.Search.{UsbDevice}

-- The wanted devices of all busses, in order.
unfoldable pub wanted_of : (UsbDevice → Bool) → List UsbDevice → List UsbDevice
wanted_of wanted [] = []
wanted_of wanted (d ∷ devices) =
    let rest = wanted_of wanted devices in if wanted d then d ∷ rest else rest

unfoldable pub all_wanted : (UsbDevice → Bool) → List (List UsbDevice) → List UsbDevice
all_wanted wanted [] = []
all_wanted wanted (devices ∷ busses) = wanted_of wanted devices ++ all_wanted wanted busses

-- The element at a place counted from `count`.
unfoldable pub nth_from : ℕ → ℕ → List UsbDevice → Option UsbDevice
nth_from count index [] = none
nth_from count index (d ∷ devices) =
    let rest = nth_from (count + 1) index devices in if count == index then some d else rest

-- The search goes on over `rest` after a bus on which it ended as `r` says.
unfoldable resume : ℕ → List UsbDevice → Option UsbDevice × ℕ → Option UsbDevice
resume index rest (none, count) = nth_from count index rest
resume index rest (some d, count) = some d
