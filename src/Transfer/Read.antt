-- ===== src/Transfer/Read.antt =====
-- The loop of `usb_bulk_read` (usb_io.c) over a kernel that brings bytes.
use libtopfield.Base.{
  ℕ, zero, suc, ◌+◌, ◌-◌, ◌<◌, ◌≤◌, ◌≡◌, refl, ap, sym, ◌∙◌, arith, List, [], ◌++◌, append_assoc,
  Option, some, length, take, ltb, ◌==◌, ◌&&◌, min, bit_or, inl, inr, Bool-cases, length-append,
  length-take,
}
use libtopfield.Base.Int.{pos, negsuc}
use libtopfield.Transfer.{Kernel, read_rounds, usb_bulk_read}
use libtopfield.Transfer.Write.{ℤ-cases}
use mathlib.Core.List.{append-nil}

-- What the kernel promises of a read: it brings no more bytes than were asked for, as many as it
-- reports, and they follow the ones that it brought before. `log w` are all that it brought.
pub record Brings {W : Type 0} (kernel : Kernel W) (log : W → List ℕ) : Type 0 where
  pub bounded :
      (w : W) (ep len timeout n : ℕ) → (kernel.bulk_in w ep len timeout).0 ≡ pos n → n ≤ len
  pub present :
      (w : W) (ep len timeout n : ℕ)
      → (kernel.bulk_in w ep len timeout).0 ≡ pos n
      → n ≤ length (kernel.bulk_in w ep len timeout).1
  pub logged :
      (w : W) (ep len timeout n : ℕ)
      → (kernel.bulk_in w ep len timeout).0 ≡ pos n
      → log (kernel.bulk_in w ep len timeout).2
        ≡ log w ++ take n (kernel.bulk_in w ep len timeout).1
  pub failed :
      (w : W) (ep len timeout e : ℕ)
      → (kernel.bulk_in w ep len timeout).0 ≡ negsuc e
      → log (kernel.bulk_in w ep len timeout).2 ≡ log w

-- The outcome of the loop.
pub record Retrieves {W : Type 0} (log : W → List ℕ) (w : W) (size : ℕ)
    (r : Option (ℕ × List ℕ × W)) : Type 0 where
  pub retrieved : ℕ
  pub got : List ℕ
  pub after : W
  pub returns : r ≡ some (retrieved, got, after)
  pub no_more : retrieved ≤ size
  pub counted : length got ≡ retrieved
  pub brought : log after ≡ log w ++ got

module _ {W : Type 0} (kernel : Kernel W) (max : ℕ) (log : W → List ℕ) (k : Brings kernel log)
    (first : W) (ep size timeout : ℕ) where
  read_rounds-Retrieves :
      (fuel retrieved : ℕ) (got : List ℕ) (w : W)
      → size < fuel + retrieved
      → retrieved ≤ size
      → length got ≡ retrieved
      → log w ≡ log first ++ got
      → Retrieves log first size (read_rounds kernel max fuel ep size timeout retrieved got w)
  unfolding read_rounds
  read_rounds-Retrieves zero retrieved got w enough small counted before = ground arith
  read_rounds-Retrieves (suc fuel) retrieved got w enough small counted before =
      let requested = min (size - retrieved) max in
      let r = kernel.bulk_in w ep requested timeout in
      elim (ℤ-cases (r.0)) [
        | inl (n, e) ↦
            let most = k.bounded w ep requested timeout n e in
            let logs =
              k.logged w ep requested timeout n e
              ∙ ap (◌++ take n (r.1)) before
              ∙ append_assoc (log first) got (take n (r.1)) in
            let count : length (got ++ take n (r.1)) ≡ retrieved + n = omega (
              arith,
              counted,
              length-append got (take n (r.1)),
              length-take n (r.1),
              k.present w ep requested timeout n e,
            ) in
            elim (Bool-cases (ltb 0 n && ltb (retrieved + n) size && (n == requested))) [
              | inl more ↦
                  rw (e, more, read_rounds)
                    (read_rounds-Retrieves fuel (retrieved + n) (got ++ take n (r.1)) (r.2)
                      (ground (arith, more)) (omega (arith, most, small)) count logs)
              | inr done ↦ record {
                retrieved = retrieved + n;
                got = got ++ take n (r.1);
                after = r.2;
                returns = rw (e, done, read_rounds);
                no_more = omega (arith, most, small);
                counted = count;
                brought = logs;
              }
            ]
        | inr (n, e) ↦ record {
          retrieved = retrieved;
          got = got;
          after = r.2;
          returns = rw (e, read_rounds);
          no_more = small;
          counted = counted;
          brought = k.failed w ep requested timeout n e ∙ before;
        }
      ]

-- `usb_bulk_read` ends, whatever the kernel answers. It returns how many bytes came in, at most
-- `size`, with exactly those bytes, every byte that the kernel brought, in order. Condition: a
-- kernel that brings no more than it is asked for and reports what it brought.
pub usb_bulk_read-Retrieves :
    {W : Type 0} (kernel : Kernel W) (max : ℕ) (log : W → List ℕ)
    → Brings kernel log
    → (w : W) (ep size timeout : ℕ)
    → Retrieves log w size (usb_bulk_read kernel max w ep size timeout)
unfolding usb_bulk_read
usb_bulk_read-Retrieves kernel max log k w ep size timeout =
    read_rounds-Retrieves kernel max log k w (bit_or ep 0x80) size timeout (size + 1) 0 [] w
      (omega arith) (omega arith) refl (sym (append-nil (log w)))
