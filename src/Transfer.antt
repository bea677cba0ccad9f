-- ===== src/Transfer.antt =====
-- usb_io.c: bulk transfers over usbdevfs, in pieces that the kernel takes.
--
-- The kernel's ioctl is a parameter: `bulk_out w ep bytes len timeout` and `bulk_in w ep len timeout`
-- are USBDEVFS_BULK on an endpoint, with its result, the bytes that came in and the world after it.
-- `max` is MAX_READ and MAX_WRITE, 4096 or 16384 by the kernel's version. A loop runs on fuel, and
-- `none` means that the fuel ran out.
pub mod Write
pub mod Read
pub mod Pieces
pub mod Bus
use libtopfield.Base.{
  ℕ, zero, suc, ◌+◌, ◌-◌, Bool, true, false, List, [], ◌++◌, Option, none, some, length, take, drop,
  ltb, ◌==◌, ◌&&◌, if◌then◌else◌, min, bit_and, bit_or,
}
use libtopfield.Base.Int.{ℤ, pos, negsuc}
use libtopfield.Handle.{Usb}

pub record Kernel (W : Type 0) : Type 0 where
  pub bulk_out : W → ℕ → List ℕ → ℕ → ℕ → ℤ × W
  pub bulk_in : W → ℕ → ℕ → ℕ → ℤ × List ℕ × W
  pub sleep : W → ℕ → W

abbrev pub endpoint_dir_mask : ℕ
endpoint_dir_mask = 0x80

module _ {W : Type 0} (kernel : Kernel W) (max : ℕ) where
  -- The do loop of `usb_bulk_write` with `sent` bytes out, on an endpoint whose direction is set.
  unfoldable pub write_rounds : ℕ → ℕ → List ℕ → ℕ → ℕ → ℕ → W → Option (ℕ × W)
  write_rounds zero ep bytes length timeout sent w = none
  write_rounds (suc fuel) ep bytes length timeout sent w =
      let len = min (length - sent) max in
      let r = kernel.bulk_out w ep (drop sent bytes) len timeout in
      elim (r.0) [
        | negsuc e ↦ some (sent, r.1)
        | pos n ↦
            let more = write_rounds fuel ep bytes length timeout (sent + n) (r.1) in
            if ltb 0 n && ltb (sent + n) length then more else some (sent + n, r.1)
      ]

  unfoldable pub usb_bulk_write : W → ℕ → List ℕ → ℕ → ℕ → Option (ℕ × W)
  usb_bulk_write w ep bytes length timeout =
      write_rounds (length + 1) (bit_and ep 0x7f) bytes length timeout 0 w

  -- The do loop of `usb_bulk_read`; `got` are the bytes that have come in, `retrieved` their number.
  unfoldable pub read_rounds : ℕ → ℕ → ℕ → ℕ → ℕ → List ℕ → W → Option (ℕ × List ℕ × W)
  read_rounds zero ep size timeout retrieved got w = none
  read_rounds (suc fuel) ep size timeout retrieved got w =
      let requested = min (size - retrieved) max in
      let r = kernel.bulk_in w ep requested timeout in
      elim (r.0) [
        | negsuc e ↦ some (retrieved, got, r.2)
        | pos n ↦
            let more =
              read_rounds fuel ep size timeout (retrieved + n) (got ++ take n (r.1)) (r.2) in
            if ltb 0 n && ltb (retrieved + n) size && (n == requested)
            then more
            else some (retrieved + n, got ++ take n (r.1), r.2)
      ]

  unfoldable pub usb_bulk_read : W → ℕ → ℕ → ℕ → Option (ℕ × List ℕ × W)
  usb_bulk_read w ep size timeout =
      read_rounds (size + 1) (bit_or ep endpoint_dir_mask) size timeout 0 [] w
