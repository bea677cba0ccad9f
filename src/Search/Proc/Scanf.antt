-- ===== src/Search/Proc/Scanf.antt =====
-- C's `sscanf`, as far as usb_io_util.c uses it: blanks, characters, %d, %*d and %x, the last without
-- the sign that C would take too.
use libtopfield.Base.{
  ℕ, ◌+◌, ◌-◌, ◌*◌, Bool, List, [], ◌∷◌, ◌++◌, Option, none, some, leb, ◌==◌, ◌&&◌, ◌||◌,
  if◌then◌else◌, map,
}
use libtopfield.Base.Int.{ℤ, pos, ◌-ℤ◌}
use libtopfield.Base.Texts.{codes}

-- A part of a format. A blank stands for any blanks, also none.
pub data Directive : Type 0 where
  blank : Directive
  char : ℕ → Directive
  int : Directive
  skip_int : Directive
  hex : Directive

abbrev pub is_blank : ℕ → Bool
is_blank c = (c == 32) || (leb 9 c && leb c 13)

unfoldable pub skip_blanks : List ℕ → List ℕ
skip_blanks [] = []
skip_blanks (c ∷ input) = if is_blank c then skip_blanks input else c ∷ input

-- The value of a digit in base ten or sixteen.
unfoldable pub digit_value : ℕ → ℕ → Option ℕ
digit_value base c =
    if leb b'0' c && leb c b'9'
    then some (c - b'0')
    else if base == 16 && (leb b'a' c && leb c b'f')
    then some (c - b'a' + 10)
    else if base == 16 && (leb b'A' c && leb c b'F')
    then some (c - b'A' + 10)
    else none

-- The digits at the start of the input, after the value so far; and the input behind them.
unfoldable pub digits : ℕ → ℕ → List ℕ → ℕ × List ℕ
digits base value [] = (value, [])
digits base value (c ∷ input) = elim (digit_value base c) [
  | none ↦ (value, c ∷ input)
  | some d ↦ digits base (value * base + d) input
]

-- At least one digit.
unfoldable pub number : ℕ → List ℕ → Option (ℕ × List ℕ)
unfolding digits
number base [] = none
number base (c ∷ input) = elim (digit_value base c) [
  | none ↦ none
  | some d ↦ some (digits base d input)
]

-- A hexadecimal number may start with 0x.
unfoldable pub past_0x : List ℕ → List ℕ
past_0x (z ∷ x ∷ input) =
    if (z == b'0') && ((x == b'x') || (x == b'X')) then input else z ∷ x ∷ input
past_0x input = input

abbrev pub positive : Option (ℕ × List ℕ) → Option (ℤ × List ℕ)
positive none = none
positive (some (n, input)) = some (pos n, input)

abbrev pub negative : Option (ℕ × List ℕ) → Option (ℤ × List ℕ)
negative none = none
negative (some (n, input)) = some (pos 0 -ℤ pos n, input)

-- `%d` behind its blanks: a sign and digits.
unfoldable pub signed : List ℕ → Option (ℤ × List ℕ)
unfolding number
signed [] = none
signed (c ∷ input) =
    if c == b'-'
    then negative (number 10 input)
    else if c == b'+'
    then positive (number 10 input)
    else positive (number 10 (c ∷ input))

-- The values that are stored, up to the first part that does not match.
unfoldable pub sscanf : List Directive → List ℕ → List ℤ
unfolding skip_blanks signed number past_0x
sscanf [] input = []
sscanf (blank ∷ format) input = sscanf format (skip_blanks input)
sscanf (char d ∷ format) [] = []
sscanf (char d ∷ format) (c ∷ input) = if c == d then sscanf format input else []
sscanf (int ∷ format) input = elim (signed (skip_blanks input)) [
  | none ↦ []
  | some (n, rest) ↦ n ∷ sscanf format rest
]
sscanf (skip_int ∷ format) input = elim (signed (skip_blanks input)) [
  | none ↦ []
  | some (n, rest) ↦ sscanf format rest
]
sscanf (hex ∷ format) input = elim (positive (number 16 (past_0x (skip_blanks input)))) [
  | none ↦ []
  | some (n, rest) ↦ n ∷ sscanf format rest
]

-- The characters of a format.
abbrev pub plain : List ℕ → List Directive
plain text = map (λ c. if c == 32 then blank else char c) text

-- "T: Bus=%d Lev=%*d Prnt=%*d Port=%*d Cnt=%*d Dev#=%d"
unfoldable pub topology_format : List Directive
topology_format =
    plain (codes "T: Bus=")
    ++ (int ∷ plain (codes " Lev=")
        ++ (skip_int ∷ plain (codes " Prnt=")
            ++ (skip_int ∷ plain (codes " Port=")
                ++ (skip_int ∷ plain (codes " Cnt=")
                    ++ (skip_int ∷ plain (codes " Dev#=") ++ int ∷ [])))))

-- "P: Vendor=%x ProdID=%x"
unfoldable pub product_format : List Directive
product_format = plain (codes "P: Vendor=") ++ (hex ∷ plain (codes " ProdID=") ++ hex ∷ [])
