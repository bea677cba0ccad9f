-- ===== src/Examples/Device.antt =====
-- A device that takes every packet and answers with the packets of its list, for the examples.
use libtopfield.Base.{ℕ, zero, suc, true, false, List, [], ◌∷◌, ◌++◌, length, take}
use libtopfield.Base.Int.{ℤ, pos, negsuc}
use libtopfield.Handle.{TfHandle, Usb, State}
use libtopfield.Transfer.{Kernel}
use libtopfield.Mjd.{TimeZone}

abbrev pub answers : List (List ℕ) → ℤ × List ℕ × List (List ℕ)
answers [] = (negsuc 0, [], [])
answers (packet ∷ packets) = (pos (length packet), packet, packets)

abbrev pub device : Usb (List (List ℕ))
device = record {
  bulk_write = λ w endpoint bytes len timeout. (pos len, w);
  bulk_read = λ w endpoint size timeout. answers w;
  sleep = λ w n. w;
}

abbrev pub open_handle : TfHandle
open_handle = record {
  timeout = 11000;
  trace_level = 0;
  nocrc = false;
  error = pos 0;
  lock_fd = pos 3;
  dev = true;
  pending = true;
  buf = true;
}

abbrev pub opened : List (List ℕ) → State (List (List ℕ))
opened packets = record { tf = open_handle; world = packets }

-- A bus and a kernel whose world is what went out, or what came in.
abbrev pub bus : Usb (List ℕ)
bus = record {
  bulk_write = λ w endpoint bytes len timeout. (pos len, w ++ take len bytes);
  bulk_read = λ w endpoint size timeout. (negsuc 0, [], w);
  sleep = λ w n. w;
}

abbrev pub sevens : ℕ → List ℕ
sevens zero = []
sevens (suc n) = 7 ∷ sevens n

abbrev pub kernel : Kernel (List ℕ)
kernel = record {
  bulk_out = λ w endpoint bytes len timeout. (pos len, w ++ take len bytes);
  bulk_in = λ w endpoint len timeout. (pos len, sevens len, w ++ take len (sevens len));
  sleep = λ w n. w;
}

abbrev pub utc : TimeZone
utc = record {
  mktime = λ tm. pos 0;
  localtime = λ t. record {
    sec = pos 0;
    minute = pos 0;
    hour = pos 0;
    mday = pos 1;
    mon = pos 0;
    year = pos 70;
  };
}
