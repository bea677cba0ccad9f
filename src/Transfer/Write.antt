-- ===== src/Transfer/Write.antt =====
-- The loop of `usb_bulk_write` (usb_io.c) over a kernel that takes bytes.
use libtopfield.Base.{
  ℕ, zero, suc, ◌+◌, ◌-◌, ◌<◌, ◌≤◌, ◌⊎◌, ◌≡◌, refl, ap, sym, ◌∙◌, arith, List, [], ◌∷◌, ◌++◌,
  append_assoc, Option, some, length, take, drop, ltb, ◌&&◌, min, bit_and, inl, inr, Bool-cases,
}
use libtopfield.Base.Int.{ℤ, pos, negsuc}
use mathlib.Core.List.{append-nil}
use libtopfield.Transfer.{Kernel, write_rounds, usb_bulk_write}

take-suc :
    (n k : ℕ) (xs : List ℕ)
    → ((ys : List ℕ) → take n ys ++ take k (drop n ys) ≡ take (n + k) ys)
    → take (suc n) xs ++ take k (drop (suc n) xs) ≡ take (suc (n + k)) xs
take-suc n zero [] h = refl
take-suc n (suc k) [] h = refl
take-suc n k (x ∷ xs) h = ap (x ∷◌) (h xs)

-- The bytes of both takes are those of one.
pub take-take-drop : (n k : ℕ) (xs : List ℕ) → take n xs ++ take k (drop n xs) ≡ take (n + k) xs
take-take-drop zero k xs = let same : k ≡ 0 + k = omega arith in ap (λ m. take m xs) same
take-take-drop (suc n) k xs =
    let same : suc (n + k) ≡ suc n + k = omega arith in
    take-suc n k xs (λ ys. take-take-drop n k ys) ∙ ap (λ m. take m xs) same

-- What the kernel promises of a write: it takes no more bytes than it is given, and those that it
-- takes, in their order, are behind the ones that it took before. `log w` are all that it took.
pub record Accepts {W : Type 0} (kernel : Kernel W) (log : W → List ℕ) : Type 0 where
  pub bounded :
      (w : W) (ep : ℕ) (bytes : List ℕ) (len timeout n : ℕ)
      → (kernel.bulk_out w ep bytes len timeout).0 ≡ pos n
      → n ≤ len
  pub logged :
      (w : W) (ep : ℕ) (bytes : List ℕ) (len timeout n : ℕ)
      → (kernel.bulk_out w ep bytes len timeout).0 ≡ pos n
      → log (kernel.bulk_out w ep bytes len timeout).1 ≡ log w ++ take n bytes
  pub failed :
      (w : W) (ep : ℕ) (bytes : List ℕ) (len timeout e : ℕ)
      → (kernel.bulk_out w ep bytes len timeout).0 ≡ negsuc e
      → log (kernel.bulk_out w ep bytes len timeout).1 ≡ log w

-- The outcome of the loop.
pub record Delivers {W : Type 0} (log : W → List ℕ) (w : W) (bytes : List ℕ) (length : ℕ)
    (r : Option (ℕ × W)) : Type 0 where
  pub sent : ℕ
  pub after : W
  pub returns : r ≡ some (sent, after)
  pub no_more : sent ≤ length
  pub delivered : log after ≡ log w ++ take sent bytes

pub ℤ-cases : (a : ℤ) → ((n : ℕ) × (a ≡ pos n)) ⊎ ((n : ℕ) × (a ≡ negsuc n))
ℤ-cases (pos n) = inl (n, refl)
ℤ-cases (negsuc n) = inr (n, refl)

module _ {W : Type 0} (kernel : Kernel W) (max : ℕ) (log : W → List ℕ) (k : Accepts kernel log)
    (first : W) (ep : ℕ) (bytes : List ℕ) (length timeout : ℕ) where
  write_rounds-Delivers :
      (fuel sent : ℕ) (w : W)
      → length < fuel + sent
      → sent ≤ length
      → log w ≡ log first ++ take sent bytes
      → Delivers log first bytes length
          (write_rounds kernel max fuel ep bytes length timeout sent w)
  unfolding write_rounds
  write_rounds-Delivers zero sent w enough small before = ground arith
  write_rounds-Delivers (suc fuel) sent w enough small before =
      let len = min (length - sent) max in
      let r = kernel.bulk_out w ep (drop sent bytes) len timeout in
      elim (ℤ-cases (r.0)) [
        | inl (n, e) ↦
            let most = k.bounded w ep (drop sent bytes) len timeout n e in
            let logs =
              k.logged w ep (drop sent bytes) len timeout n e
              ∙ ap (◌++ take n (drop sent bytes)) before
              ∙ append_assoc (log first) (take sent bytes) (take n (drop sent bytes))
              ∙ ap (log first ++◌) (take-take-drop sent n bytes) in
            elim (Bool-cases (ltb 0 n && ltb (sent + n) length)) [
              | inl more ↦
                  rw (e, more, write_rounds)
                    (write_rounds-Delivers fuel (sent + n) (r.1) (ground (arith, more))
                      (omega (arith, most, small)) logs)
              | inr done ↦ record {
                sent = sent + n;
                after = r.1;
                returns = rw (e, done, write_rounds);
                no_more = omega (arith, most, small);
                delivered = logs;
              }
            ]
        | inr (n, e) ↦ record {
          sent = sent;
          after = r.1;
          returns = rw (e, write_rounds);
          no_more = small;
          delivered = k.failed w ep (drop sent bytes) len timeout n e ∙ before;
        }
      ]

-- `usb_bulk_write` ends, whatever the kernel answers. It returns how many bytes went out, at most
-- `length`, and the kernel has taken exactly that many from the start of the buffer, in order and
-- each once. Condition: a kernel that takes no more than it is given and reports what it took.
pub usb_bulk_write-Delivers :
    {W : Type 0} (kernel : Kernel W) (max : ℕ) (log : W → List ℕ)
    → Accepts kernel log
    → (w : W) (ep : ℕ) (bytes : List ℕ) (length timeout : ℕ)
    → Delivers log w bytes length (usb_bulk_write kernel max w ep bytes length timeout)
unfolding usb_bulk_write
usb_bulk_write-Delivers kernel max log k w ep bytes length timeout =
    write_rounds-Delivers kernel max log k w (bit_and ep 0x7f) bytes length timeout (length + 1) 0 w
      (omega arith) (omega arith) (sym (append-nil (log w)))
