-- ===== src/Transfer/Pieces.antt =====
-- The loops of usb_io.c over a kernel that moves a transfer in pieces.
use libtopfield.Base.{
  dec_lt, ℕ, zero, suc, ◌+◌, ◌-◌, ◌<◌, ◌≤◌, ◌≡◌, refl, ap, arith, List, [], ◌∷◌, ◌++◌, append_assoc,
  some, length, take, drop, drop-drop, length-append, ltb, ◌==◌, ◌&&◌, min, true, false,
  length-append,
}
use libtopfield.Base.Int.{pos, negsuc}
use mathlib.Core.List.{append-nil}
use libtopfield.Transfer.{Kernel, write_rounds, read_rounds}

-- The kernel takes `left` bytes, which start with `bytes`, in pieces that are not empty.
pub data Takes {W : Type 0} (kernel : Kernel W) (max timeout : ℕ)
    : ℕ → List ℕ → W → W → Type 0 where
  all : (bytes : List ℕ) (w : W) → Takes kernel max timeout 0 bytes w w
  piece :
      (left n : ℕ) (bytes : List ℕ) (w w1 after : W)
      → kernel.bulk_out w 0x01 bytes (min left max) timeout ≡ (pos n, w1)
      → 0 < n
      → n ≤ left
      → Takes kernel max timeout (left - n) (drop n bytes) w1 after
      → Takes kernel max timeout left bytes w after

-- The kernel brings bytes where `wanted` are asked for: as many as it is asked for at a time, until
-- a piece is shorter, a read fails or no more are wanted.
pub data Arrives {W : Type 0} (kernel : Kernel W) (max timeout : ℕ)
    : ℕ → List ℕ → W → W → Type 0 where
  filled : (w : W) → Arrives kernel max timeout 0 [] w w
  failed :
      (wanted e : ℕ) (rest : List ℕ) (w after : W)
      → 0 < wanted
      → kernel.bulk_in w 0x82 (min wanted max) timeout ≡ (negsuc e, rest, after)
      → Arrives kernel max timeout wanted [] w after
  short :
      (wanted : ℕ) (bytes : List ℕ) (w after : W)
      → kernel.bulk_in w 0x82 (min wanted max) timeout ≡ (pos (length bytes), bytes, after)
      → length bytes < min wanted max
      → Arrives kernel max timeout wanted bytes w after
  full :
      (wanted : ℕ) (bytes rest : List ℕ) (w w1 after : W)
      → kernel.bulk_in w 0x82 (min wanted max) timeout ≡ (pos (length bytes), bytes, w1)
      → length bytes ≡ min wanted max
      → 0 < length bytes
      → Arrives kernel max timeout (wanted - length bytes) rest w1 after
      → Arrives kernel max timeout wanted (bytes ++ rest) w after

module _ {W : Type 0} (kernel : Kernel W) (max timeout : ℕ) where
  at_end :
      (left : ℕ) (bytes : List ℕ) (w after : W)
      → Takes kernel max timeout left bytes w after
      → left ≡ 0
      → w ≡ after
  at_end _ _ w _ (Takes.all _ _) none_left = refl
  at_end left _ w after (Takes.piece _ n _ _ w1 _ takes more fits rest) none_left =
      absurd (omega (arith, more, fits, none_left))

  filled_up :
      (wanted : ℕ) (bytes : List ℕ) (w after : W)
      → Arrives kernel max timeout wanted bytes w after
      → wanted ≡ 0
      → (bytes ≡ []) × (w ≡ after)
  filled_up _ _ w _ (Arrives.filled _) none_wanted = (refl, refl)
  filled_up _ _ w after (Arrives.failed wanted e rest _ _ some_wanted brings) none_wanted =
      absurd (omega (arith, some_wanted, none_wanted))
  filled_up _ _ w after (Arrives.short wanted bytes _ _ brings fewer) none_wanted =
      absurd (omega (arith, fewer, none_wanted))
  filled_up _ _ w after (Arrives.full wanted bytes rest _ w1 _ brings all_of some_bytes more)
        none_wanted =
      absurd (omega (arith, all_of, some_bytes, none_wanted))

  take-all : (bytes : List ℕ) → take (length bytes) bytes ≡ bytes
  take-all [] = refl
  take-all (b ∷ bytes) = ap (b ∷◌) (take-all bytes)

  pub write_rounds-Takes :
      (fuel length sent left : ℕ) (bytes : List ℕ) (w after : W)
      → Takes kernel max timeout left (drop sent bytes) w after
      → sent + left ≡ length
      → 0 < left
      → left < fuel
      → write_rounds kernel max fuel 0x01 bytes length timeout sent w ≡ some (length, after)
  unfolding write_rounds
  write_rounds-Takes zero length sent left bytes w after t sum some_left enough = ground arith
  write_rounds-Takes (suc fuel) length sent _ bytes w _ (Takes.all _ _) sum some_left enough =
      ground arith
  write_rounds-Takes (suc fuel) length sent _ bytes w _
        (Takes.piece left n _ _ w1 after takes more fits rest) sum some_left enough =
      let here : length - sent ≡ left = omega (arith, sum) in
      let taken : kernel.bulk_out w 0x01 (drop sent bytes) (min (length - sent) max) timeout
          ≡ (pos n, w1) =
        rw here takes in
      let code = ap (λ r. r.0) taken in
      let world = ap (λ r. r.1) taken in
      let next : sent + n + (left - n) ≡ length = omega (arith, sum, fits) in
      let behind : drop n (drop sent bytes) ≡ drop (sent + n) bytes = drop-drop n sent bytes in
      elim (dec_lt 0 (left - n)) [
        | yes goes_on ↦
            let again : (ltb 0 n && ltb (sent + n) length) ≡ true =
              ground (arith, more, sum, goes_on) in
            let later =
              write_rounds-Takes fuel length (sent + n) (left - n) bytes w1 after
                (rw behind at rest) next goes_on (omega (arith, more, enough)) in
            rw (code, world, again, write_rounds) later
        | no over ↦
            let none_left : left - n ≡ 0 = omega (arith, over) in
            let stops : (ltb 0 n && ltb (sent + n) length) ≡ false = ground (arith, sum, over) in
            let whole : sent + n ≡ length = omega (arith, sum, fits, over) in
            let same = at_end (left - n) _ w1 after rest none_left in
            rw (code, world, stops, whole, same, write_rounds) refl
      ]

  pub read_rounds-Arrives :
      (fuel size retrieved wanted : ℕ) (got bytes : List ℕ) (w after : W)
      → Arrives kernel max timeout wanted bytes w after
      → retrieved + wanted ≡ size
      → 0 < wanted
      → wanted < fuel
      → read_rounds kernel max fuel 0x82 size timeout retrieved got w
        ≡ some (retrieved + length bytes, got ++ bytes, after)
  unfolding read_rounds
  read_rounds-Arrives zero size retrieved wanted got bytes w after a sum some_wanted enough =
      ground arith
  read_rounds-Arrives (suc fuel) size retrieved _ got _ w _ (Arrives.filled _) sum some_wanted
        enough =
      ground arith
  read_rounds-Arrives (suc fuel) size retrieved wanted got _ w after
        (Arrives.failed _ e rest _ _ more brings) sum some_wanted enough =
      let here : size - retrieved ≡ wanted = omega (arith, sum) in
      let brought : kernel.bulk_in w 0x82 (min (size - retrieved) max) timeout
          ≡ (negsuc e, rest, after) =
        rw here brings in
      let code = ap (λ r. r.0) brought in
      let piece = ap (λ r. r.1) brought in
      let world = ap (λ r. r.2) brought in
      rw (code, world, append-nil got, read_rounds) (ap (λ k. some (k, got, after)) (omega arith))
  read_rounds-Arrives (suc fuel) size retrieved wanted got bytes w after
        (Arrives.short _ _ _ _ brings fewer) sum some_wanted enough =
      let here : size - retrieved ≡ wanted = omega (arith, sum) in
      let brought : kernel.bulk_in w 0x82 (min (size - retrieved) max) timeout
          ≡ (pos (length bytes), bytes, after) =
        rw here brings in
      let code = ap (λ r. r.0) brought in
      let piece = ap (λ r. r.1) brought in
      let world = ap (λ r. r.2) brought in
      let all_taken = take-all bytes in
      let stops : (length bytes == min (size - retrieved) max) ≡ false =
        ground (arith, fewer, sum) in
      rw (code, piece, world, all_taken, stops, read_rounds) (ground arith)
  read_rounds-Arrives (suc fuel) size retrieved wanted got _ w after
        (Arrives.full _ bytes rest _ w1 _ brings all_of some_bytes more) sum some_wanted enough =
      let here : size - retrieved ≡ wanted = omega (arith, sum) in
      let brought : kernel.bulk_in w 0x82 (min (size - retrieved) max) timeout
          ≡ (pos (length bytes), bytes, w1) =
        rw here brings in
      let code = ap (λ r. r.0) brought in
      let piece = ap (λ r. r.1) brought in
      let world = ap (λ r. r.2) brought in
      let taken = take-all bytes in
      let asked : (length bytes == min (size - retrieved) max) ≡ true =
        ground (arith, all_of, sum) in
      let count = length-append bytes rest in
      let joined = append_assoc got bytes rest in
      elim (dec_lt 0 (wanted - length bytes)) [
        | yes goes_on ↦
            let again : ltb (retrieved + length bytes) size ≡ true = ground (arith, sum, goes_on) in
            let later =
              read_rounds-Arrives fuel size (retrieved + length bytes) (wanted - length bytes)
                (got ++ bytes) rest w1 after more (omega (arith, sum, all_of)) goes_on
                (omega (arith, some_bytes, enough)) in
            let sum_is : retrieved + length bytes + length rest
                ≡ retrieved + length (bytes ++ rest) =
              omega (arith, count) in
            rw (code, piece, world, taken, asked, again, read_rounds)
              (ground (arith, some_bytes, later, sum_is, joined))
        | no over ↦
            let stops : ltb (retrieved + length bytes) size ≡ false = ground (arith, sum, over) in
            let (none_left, same) =
              filled_up (wanted - length bytes) rest w1 after more (omega (arith, over)) in
            rw (code, piece, world, taken, stops, none_left, append-nil bytes, same, read_rounds)
              (ground arith)
      ]
