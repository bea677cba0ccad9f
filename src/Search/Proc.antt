-- ===== src/Search/Proc.antt =====
-- usb_io_util.c: the search in /proc/bus/usb/devices for a device, and its opening and closing, in
-- the build without libusb.
--
-- The kernel stands behind the record `Usbfs`, over a world `W`; each call gives its result and the
-- world after it. The functions of this file that have a name of usbutil.c start with proc_. The
-- conversions of `sscanf` have no bound here; C leaves numbers that do not fit undefined.
pub mod Scanf
pub mod Place
pub mod Handles
pub mod Lines
use libtopfield.Base.{
  ℕ, zero, suc, ◌+◌, ◌-◌, Bool, true, false, List, [], ◌∷◌, ◌++◌, Option, none, some, length,
  replicate, ◌==◌, ◌&&◌, ◌||◌, if◌then◌else◌,
}
use libtopfield.Base.Int.{ℤ, pos, negsuc, pos_part, neg_part, ◌==ℤ◌, ltb_ℤ}
use libtopfield.Base.Texts.{codes}
use libtopfield.Daemon.{decimal, failed}
use libtopfield.Search.Proc.Scanf.{sscanf, topology_format, product_format}

-- `fgets` with room for `n` characters: a line, or as much of it as fits, and what is left.
unfoldable pub fgets : ℕ → List ℕ → List ℕ × List ℕ
fgets zero input = ([], input)
fgets (suc n) [] = ([], [])
fgets (suc n) (c ∷ input) =
    let rest = fgets n input in if c == 10 then (c ∷ [], input) else (c ∷ rest.0, rest.1)

-- The lines that the loop on `fgets` sees, in a buffer of MAX_DEVICES_LINE_SIZE characters.
abbrev pub max_devices_line_size : ℕ
max_devices_line_size = 128

unfoldable pub lines_of : ℕ → List ℕ → List (List ℕ)
unfolding fgets
lines_of zero input = []
lines_of (suc fuel) [] = []
lines_of (suc fuel) (c ∷ input) =
    let line = fgets (max_devices_line_size - 1) (c ∷ input) in line.0 ∷ lines_of fuel (line.1)

-- The variables of the loop.
pub record Search : Type 0 where
  pub bus : ℤ
  pub device : ℤ
  pub count : ℕ

-- `sscanf` into two variables: how many it stored, and both of them after it.
unfoldable pub store_two : List ℤ → ℤ → ℤ → ℕ × ℤ × ℤ
store_two [] a b = (0, a, b)
store_two (v ∷ []) a b = (1, v, b)
store_two (v ∷ w ∷ values) a b = (2, v, w)

-- A product line: whether its device is the wanted kind.
unfoldable pub is_product : ℕ → ℕ → List ℕ → Bool
unfolding store_two
is_product vendor_id product_id line =
    let got = store_two (sscanf product_format line) (pos 0) (pos 0) in
    (got.0 == 2) && ((got.1 ==ℤ pos vendor_id) && (got.2 ==ℤ pos product_id))

-- The while loop over the lines: the bus and the device that were found.
unfoldable pub scan_lines : (List ℕ → Bool) → ℕ → Search → List (List ℕ) → Option (ℤ × ℤ)
scan_lines wanted index s [] = none
scan_lines wanted index s (line ∷ lines) =
    let got = store_two (sscanf topology_format line) s.bus s.device in
    let stored : Search = record s { bus = got.1; device = got.2 } in
    let on = scan_lines wanted index stored lines in
    let counted = scan_lines wanted index (record stored { count = s.count + 1 }) lines in
    if got.0 == 2
    then on
    else if (got.1 ==ℤ pos 0) || (got.2 ==ℤ pos 0)
    then on
    else if wanted line
    then (if s.count == index then some (got.1, got.2) else counted)
    else on

abbrev pub no_device : Search
no_device = record { bus = pos 0; device = pos 0; count = 0 }

-- `%03d`
unfoldable pub three_digits : ℤ → List ℕ
three_digits n =
    let sign : List ℕ = if ltb_ℤ n (pos 0) then b'-' ∷ [] else [] in
    let digits = decimal 10 (pos_part n + neg_part n) [] in
    sign ++ (replicate (3 - length sign - length digits) b'0' ++ digits)

abbrev pub devices_dir : List ℕ
devices_dir = codes "/proc/bus/usb/"

-- The file of a device.
unfoldable pub device_path : ℤ × ℤ → List ℕ
unfolding three_digits
device_path (bus, device) = devices_dir ++ (three_digits bus ++ b'/' ∷ three_digits device)

-- `open_list w` opens /proc/bus/usb/devices: its text, or `none` if it does not open; `close_list`
-- is `fclose` of that file. The others are open and ioctl with USBDEVFS_RESET, _CLAIMINTERFACE, _SETINTERFACE and _RELEASEINTERFACE, and close.
pub record Usbfs (W : Type 0) : Type 0 where
  pub open_list : W → Option (List ℕ) × W
  pub close_list : W → W
  pub open_device : W → List ℕ → ℤ × W
  pub reset : W → ℤ → ℤ × W
  pub claim_interface : W → ℤ → ℤ × W
  pub set_interface : W → ℤ → ℤ × W
  pub release_interface : W → ℤ → ℤ × W
  pub close : W → ℤ → ℤ × W

-- The search in the text of the file.
unfoldable pub find_device : ℕ → ℕ → ℕ → List ℕ → Option (ℤ × ℤ)
find_device vendor_id product_id index text =
    scan_lines (is_product vendor_id product_id) index no_device (lines_of (length text) text)

module _ {W : Type 0} (usbfs : Usbfs W) where
  -- Opens the device's file and sets its interface up: the descriptor of the handle, if there is one.
  unfoldable pub open_at : List ℕ → W → Option ℤ × W
  open_at path w =
      let fd = usbfs.open_device w path in
      let was_reset = usbfs.reset (fd.1) (fd.0) in
      let claimed = usbfs.claim_interface (was_reset.1) (fd.0) in
      let prepared = usbfs.set_interface (claimed.1) (fd.0) in
      if failed (fd.0)
      then (none, fd.1)
      else if failed (was_reset.0)
      then (none, (usbfs.close (was_reset.1) (fd.0)).1)
      else if failed (claimed.0)
      then (none, (usbfs.close (claimed.1) (fd.0)).1)
      else if failed (prepared.0)
      then (none, (usbfs.close (prepared.1) (fd.0)).1)
      else (some (fd.0), prepared.1)

  -- The build for kernels from 2.6.0 on.
  unfoldable pub proc_open_usb_dev : ℕ → ℕ → ℕ → W → Option ℤ × W
  proc_open_usb_dev vendor_id product_id index w =
      let listing = usbfs.open_list w in
      elim (listing.0) [
        | none ↦ (none, listing.1)
        | some text ↦ elim (find_device vendor_id product_id index text) [
          | none ↦ (none, usbfs.close_list (listing.1))
          | some place ↦ open_at (device_path place) (usbfs.close_list (listing.1))
        ]
      ]

  -- The build for kernels from 2.6.11 on.
  unfoldable pub proc_close_usb_dev : ℤ → W → W
  proc_close_usb_dev fd w = (usbfs.close ((usbfs.release_interface w fd).1) fd).1
