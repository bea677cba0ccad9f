-- ===== src/Stat/Device.antt =====
-- `tf_stat` (tf_util.c) over a device that sends the listing of the parent.
use libtopfield.Base.{◌≡◌, some}
use libtopfield.Base.Int.{ℤ}
use libtopfield.Handle.{Usb, State}
use libtopfield.Dir.{tf_cmd_dir_cancel}
use libtopfield.Stat.Listing.{Listing}

-- A listing can be cancelled: the answer to the request is one that the code can read.
abbrev pub Cancels : {W : Type 0} → Usb W → Type 0
Cancels {W} usb =
    (s : State W) → (code : ℤ) × (t : State W) × (tf_cmd_dir_cancel usb s ≡ some (code, t))
