-- ===== src/Search/Proc/Lines.antt =====
-- The lines that the loop of usb_io_util.c reads: the fuel of `lines_of` is enough.
use libtopfield.Base.{
  ℕ, zero, suc, ◌<◌, ◌≤◌, ◌≡◌, refl, ap, ◌∙◌, arith, List, [], ◌∷◌, ◌++◌, length, ◌==◌, Bool-cases,
  inl, inr, All,
}
use libtopfield.Search.Proc.{fgets, lines_of, max_devices_line_size}

pub join : List (List ℕ) → List ℕ
join [] = []
join (line ∷ lines) = line ++ join lines

fgets-append : (n : ℕ) (input : List ℕ) → (fgets n input).0 ++ (fgets n input).1 ≡ input
unfolding fgets
fgets-append zero input = refl
fgets-append (suc n) [] = refl
fgets-append (suc n) (c ∷ input) = elim (Bool-cases (c == 10)) [
  | inl newline ↦ rw newline refl
  | inr other ↦ rw other (ap (◌∷◌ c) (fgets-append n input))
]

fgets-le : (n : ℕ) (input : List ℕ) → length (fgets n input).1 ≤ length input
unfolding fgets
fgets-le zero input = omega arith
fgets-le (suc n) [] = omega arith
fgets-le (suc n) (c ∷ input) = let ih = fgets-le n input in ground (arith, ih)

fgets-lt : (n c : ℕ) (input : List ℕ) → length (fgets (suc n) (c ∷ input)).1 < length (c ∷ input)
unfolding fgets
fgets-lt n c input = let ih = fgets-le n input in ground (arith, ih)

length-fgets : (n : ℕ) (input : List ℕ) → length (fgets n input).0 ≤ n
unfolding fgets
length-fgets zero input = omega arith
length-fgets (suc n) [] = omega arith
length-fgets (suc n) (c ∷ input) = let ih = length-fgets n input in ground (arith, ih)

abbrev pub Short : List ℕ → Type 0
Short line = length line < max_devices_line_size

short : (a : ℕ) → a ≤ 127 → a < max_devices_line_size
short a h = omega arith

fewer : (a b fuel : ℕ) → a < b → b ≤ suc fuel → a ≤ fuel
fewer a b fuel h k = omega arith

-- The lines are the whole text, and each fits in the buffer with its terminator.
pub lines_of-join :
    (fuel : ℕ) (text : List ℕ)
    → length text ≤ fuel
    → (join (lines_of fuel text) ≡ text) × All Short (lines_of fuel text)
unfolding lines_of join
lines_of-join zero [] enough = (refl, tt)
lines_of-join zero (c ∷ text) enough = absurd (omega arith)
lines_of-join (suc fuel) [] enough = (refl, tt)
lines_of-join (suc fuel) (c ∷ text) enough =
    let line = fgets 127 (c ∷ text) in
    let enough_left = fewer (length line.1) (length (c ∷ text)) fuel (fgets-lt 126 c text) enough in
    let later = lines_of-join fuel (line.1) enough_left in
    (
      ap (line.0 ++◌) later.0 ∙ fgets-append 127 (c ∷ text),
      (short (length line.0) (length-fgets 127 (c ∷ text)), later.1),
    )
