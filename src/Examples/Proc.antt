-- ===== src/Examples/Proc.antt =====
-- The search in the text of /proc/bus/usb/devices, with two receivers among three devices.
use libtopfield.Base.{
  ℕ, ◌+◌, ◌-◌, ◌≡◌, refl, arith, Bool, true, false, List, [], ◌∷◌, ◌++◌, none, some, length,
  get_elem?, if◌then◌else◌,
}
use libtopfield.Base.Int.{pos, negsuc}
use libtopfield.Base.Texts.{codes}
use libtopfield.Search.Proc.{
  Usbfs, lines_of, store_two, is_product, scan_lines, find_device, device_path, proc_open_usb_dev,
}
use libtopfield.Search.Proc.Scanf.{sscanf, digit_value, topology_format, product_format}
use libtopfield.Search.Proc.Place.{ProcDevice, Describes, places, find_device-nth}
use libtopfield.Search.Proc.Handles.{Keeps, Holds, proc_open_usb_dev-Holds}
use libtopfield.Daemon.{decimal}

abbrev line : List ℕ → List ℕ
line text = text ++ 10 ∷ []

abbrev hub_place : List ℕ
hub_place = line (codes "T:  Bus=01 Lev=00 Prnt=00 Port=00 Cnt=00 Dev#=  1 Spd=480 MxCh= 4")

abbrev hub_product : List ℕ
hub_product = line (codes "P:  Vendor=0000 ProdID=0000 Rev= 2.06")

abbrev first_place : List ℕ
first_place = line (codes "T:  Bus=01 Lev=01 Prnt=01 Port=00 Cnt=01 Dev#=  7 Spd=480 MxCh= 0")

abbrev descriptor : List ℕ
descriptor = line (codes "D:  Ver= 2.00 Cls=ff(vend.) Sub=ff Prot=ff MxPS=64 #Cfgs=  1")

abbrev receiver : List ℕ
receiver = line (codes "P:  Vendor=11db ProdID=1000 Rev= 1.00")

abbrev second_place : List ℕ
second_place = line (codes "T:  Bus=02 Lev=01 Prnt=01 Port=01 Cnt=02 Dev#= 12 Spd=480 MxCh= 0")

abbrev listing : List ℕ
listing =
    hub_place
    ++ (hub_product
        ++ (first_place
            ++ (descriptor ++ (receiver ++ (second_place ++ (descriptor ++ receiver))))))

abbrev listed_devices : List ProcDevice
listed_devices =
    record { bus = 1; device = 1; id_vendor = 0; id_product = 0 }
    ∷ record { bus = 1; device = 7; id_vendor = 0x11db; id_product = 0x1000 }
    ∷ record { bus = 2; device = 12; id_vendor = 0x11db; id_product = 0x1000 }
    ∷ []

described : Describes none (lines_of (length listing) listing) listed_devices
unfolding lines_of sscanf digit_value topology_format product_format
described = Describes.topology _ 1 1 hub_place _ _ (omega arith) (omega arith) refl (
    Describes.product 1 1 0 0 hub_product _ _ refl refl (
      Describes.topology _ 1 7 first_place _ _ (omega arith) (omega arith) refl (
        Describes.other _ descriptor _ _ refl refl (
          Describes.product 1 7 0x11db 0x1000 receiver _ _ refl refl (
            Describes.topology _ 2 12 second_place _ _ (omega arith) (omega arith) refl (
              Describes.other _ descriptor _ _ refl refl (
                Describes.product 2 12 0x11db 0x1000 receiver _ _ refl refl
                  (Describes.ends _))))))))

find_device-nth_example :
    find_device 0x11db 0x1000 1 listing ≡ get_elem? (places 0x11db 0x1000 listed_devices) 1
find_device-nth_example = find_device-nth 0x11db 0x1000 1 listing listed_devices described

second_found : find_device 0x11db 0x1000 1 listing ≡ some (pos 2, pos 12)
unfolding find_device scan_lines is_product store_two lines_of sscanf digit_value topology_format
    product_format
second_found = refl

second_path : device_path (pos 2, pos 12) ≡ codes "/proc/bus/usb/002/012"
unfolding device_path decimal
second_path = refl

record Kernel : Type 0 where
  pub files : ℕ
  pub claimed : Bool

-- A kernel on which every call but the reset succeeds, or every call.
abbrev kernel_calls : Bool → Usbfs Kernel
kernel_calls resets = record {
  open_list = λ w. (some listing, record w { files = w.files + 1 });
  close_list = λ w. record w { files = w.files - 1 };
  open_device = λ w path. (pos 3, record w { files = w.files + 1 });
  reset = λ w fd. (if resets then pos 0 else negsuc 0, w);
  claim_interface = λ w fd. (pos 0, record w { claimed = true });
  set_interface = λ w fd. (pos 0, w);
  release_interface = λ w fd. (pos 0, record w { claimed = false });
  close = λ w fd. (pos 0, record w { files = w.files - 1 });
}

kernel_calls-Keeps :
    (resets : Bool) → Keeps (kernel_calls resets) (λ w. w.files) (λ w fd. w.claimed)
kernel_calls-Keeps resets = record {
  list_opens = λ w. refl;
  list_closes = λ w. refl;
  opens = λ w path. refl;
  reset_keeps = λ w fd. refl;
  claim_keeps = λ w fd. refl;
  claims = λ w fd e. refl;
  set_keeps = λ w fd. refl;
  set_claimed = λ w fd. refl;
  release_keeps = λ w fd. refl;
  closes = λ w fd. refl;
}

abbrev booted : Kernel
booted = record { files = 3; claimed = false }

proc_open_usb_dev-Holds_example :
    Holds
      (kernel_calls true)
      (λ w. w.files)
      (λ w fd. w.claimed)
      booted
      (proc_open_usb_dev (kernel_calls true) 0x11db 0x1000 1 booted)
proc_open_usb_dev-Holds_example =
    proc_open_usb_dev-Holds (kernel_calls true) (λ w. w.files) (λ w fd. w.claimed)
      (kernel_calls-Keeps true) 0x11db 0x1000 1 booted
