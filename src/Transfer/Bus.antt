-- ===== src/Transfer/Bus.antt =====
-- The record `Usb` of the protocol code, made of the loops of usb_io.c.
use libtopfield.Base.{
  Option, ℕ, ◌+◌, ◌<◌, ◌≡◌, ap, ◌∙◌, arith, List, [], ◌++◌, some, none, length, take,
}
use libtopfield.Base.Int.{ℤ, pos}
use libtopfield.Handle.{Usb}
use libtopfield.Transfer.Write.{Accepts, usb_bulk_write-Delivers}
use libtopfield.Fw.Send.{Reports}
use libtopfield.Transfer.{Kernel, usb_bulk_write, usb_bulk_read}
use libtopfield.Transfer.Pieces.{Takes, Arrives, write_rounds-Takes, read_rounds-Arrives}

-- The transfers that tf_io.c and tf_fwio.c call; both loops end, so `none` does not occur.
abbrev written : {W : Type 0} → W → Option (ℕ × W) → ℤ × W
written w none = (pos 0, w)
written w (some (n, after)) = (pos n, after)

abbrev read : {W : Type 0} → W → Option (ℕ × List ℕ × W) → ℤ × List ℕ × W
read w none = (pos 0, [], w)
read w (some (n, got, after)) = (pos n, got, after)

unfoldable pub usb_io : {W : Type 0} → Kernel W → ℕ → Usb W
usb_io kernel max = record {
  bulk_write =
      λ w ep bytes len timeout. written w (usb_bulk_write kernel max w ep bytes len timeout);
  bulk_read = λ w ep size timeout. read w (usb_bulk_read kernel max w ep size timeout);
  sleep = kernel.sleep;
}

module _ {W : Type 0} (kernel : Kernel W) (max timeout : ℕ) where
  -- The transfers of `usb_io` as the commands see them.
  pub bulk_write-Takes :
      (len : ℕ) (bytes : List ℕ) (w after : W)
      → Takes kernel max timeout len bytes w after
      → 0 < len
      → (usb_io kernel max).bulk_write w 0x01 bytes len timeout ≡ (pos len, after)
  unfolding usb_io usb_bulk_write
  bulk_write-Takes len bytes w after takes some_bytes = ap (written w) (
      write_rounds-Takes kernel max timeout (len + 1) len 0 len bytes w after takes (omega arith)
        some_bytes (omega arith))

  pub bulk_read-Arrives :
      (size : ℕ) (bytes : List ℕ) (w after : W)
      → Arrives kernel max timeout size bytes w after
      → 0 < size
      → (usb_io kernel max).bulk_read w 0x82 size timeout ≡ (pos (length bytes), bytes, after)
  unfolding usb_io usb_bulk_read
  bulk_read-Arrives size bytes w after arrives some_bytes = ap (read w) (
      read_rounds-Arrives kernel max timeout (size + 1) size 0 size [] bytes w after arrives
        (omega arith) some_bytes (omega arith)
      ∙ ap (λ n. some (n, bytes, after)) (omega arith))

-- What the bootloader's code relies on: a transfer that reports all its bytes has sent them.
pub usb_io-Reports :
    {W : Type 0} (kernel : Kernel W) (max : ℕ) (log : W → List ℕ)
    → Accepts kernel log
    → Reports (usb_io kernel max) log
unfolding usb_io
usb_io-Reports kernel max log k w ep bytes len timeout complete =
    let d = usb_bulk_write-Delivers kernel max log k w ep bytes len timeout in
    let outcome : (usb_io kernel max).bulk_write w ep bytes len timeout ≡ (pos d.sent, d.after) =
      ap (written w) d.returns in
    let sent : d.sent ≡ len = ground (arith, outcome, complete) in
    let world = ap (λ r. log r.1) outcome in
    world ∙ d.delivered ∙ ap (λ n. log w ++ take n bytes) sent
