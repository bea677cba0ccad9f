-- ===== src/Trace/Names.antt =====
-- The names of commands (tf_io.c): no two commands have one name.
use libtopfield.Base.{
  ℕ, zero, suc, ◌+◌, ◌-◌, ◌*◌, ◌/◌, ◌%◌, ◌^◌, ◌<◌, ◌≡◌, refl, ap, sym, ◌∙◌, arith, Bool, true,
  false, List, [], ◌∷◌, ◌++◌, length, leb, ◌==◌, ==_iff, if◌then◌else◌, Bool-cases, inl, inr,
  replicate, All, drop, append_assoc, ◌&&◌,
}
use native.Mathlib.Nat.{pow-suc}
use libtopfield.Trace.{
  hex_digit, hex_digits, padded_hex, name_in, command_names, unknown_name, tf_command_name,
  fw_command_names, fw_command_name,
}

-- The value of a hexadecimal digit in capital letters.
abbrev hex_value : ℕ → ℕ
hex_value c = if leb c b'9' then c - b'0' else c - b'A' + 10

hex_value-hex_digit : (d : ℕ) → d < 16 → hex_value (hex_digit b'A' d) ≡ d
unfolding hex_digit
hex_value-hex_digit d small = ground arith

-- The value of digits up to a bracket, after the value so far.
read_hex : ℕ → List ℕ → ℕ
read_hex value [] = value
read_hex value (c ∷ text) =
    let rest = read_hex (value * 16 + hex_value c) text in if c == b')' then value else rest

no_bracket : (d : ℕ) → d < 16 → (hex_digit b'A' d == b')') ≡ false
unfolding hex_digit
no_bracket d small = ground arith

hex_last :
    (fuel n : ℕ) (rest : List ℕ)
    → (n / 16 == 0) ≡ true
    → hex_digits b'A' (suc fuel) n rest ≡ hex_digit b'A' (n % 16) ∷ rest
unfolding hex_digits
hex_last fuel n rest last = rw last refl

hex_more :
    (fuel n : ℕ) (rest : List ℕ)
    → (n / 16 == 0) ≡ false
    → hex_digits b'A' (suc fuel) n rest
      ≡ hex_digits b'A' fuel (n / 16) (hex_digit b'A' (n % 16) ∷ rest)
unfolding hex_digits
hex_more fuel n rest more = rw more refl

last_digit :
    (n : ℕ) (rest : List ℕ) → read_hex (n / 16) (hex_digit b'A' (n % 16) ∷ rest) ≡ read_hex n rest
unfolding read_hex
last_digit n rest =
    let digit = hex_value-hex_digit (n % 16) (omega arith) in
    let same : n / 16 * 16 + n % 16 ≡ n = omega arith in
    rw (no_bracket (n % 16) (omega arith), digit, same) refl

one_digit :
    (fuel n : ℕ) (rest : List ℕ)
    → (n / 16 == 0) ≡ true
    → read_hex 0 (hex_digits b'A' (suc fuel) n rest) ≡ read_hex n rest
one_digit fuel n rest last =
    let zero_is : n / 16 ≡ 0 = ground (arith, last) in
    ap (read_hex 0) (hex_last fuel n rest last)
    ∙ ap (λ v. read_hex v (hex_digit b'A' (n % 16) ∷ rest)) (sym zero_is)
    ∙ last_digit n rest

read_hex-hex_digits :
    (fuel n : ℕ) (rest : List ℕ)
    → n < 16 ^ suc fuel
    → read_hex 0 (hex_digits b'A' (suc fuel) n rest) ≡ read_hex n rest
read_hex-hex_digits zero n rest small = one_digit zero n rest (ground arith)
read_hex-hex_digits (suc fuel) n rest small = elim (Bool-cases (n / 16 == 0)) [
  | inl last ↦ one_digit (suc fuel) n rest last
  | inr more ↦
      let tenth : n / 16 < 16 ^ suc fuel = omega (arith, pow-suc 16 (suc fuel)) in
      ap (read_hex 0) (hex_more (suc fuel) n rest more)
      ∙ read_hex-hex_digits fuel (n / 16) (hex_digit b'A' (n % 16) ∷ rest) tenth
      ∙ last_digit n rest
]

-- Zeros in front do not count.
read_hex-zeros : (n : ℕ) (text : List ℕ) → read_hex 0 (replicate n b'0' ++ text) ≡ read_hex 0 text
unfolding read_hex
read_hex-zeros zero text = refl
read_hex-zeros (suc n) text = read_hex-zeros n text

hex_digits-append :
    (fuel n : ℕ) (digits rest : List ℕ)
    → hex_digits b'A' fuel n (digits ++ rest) ≡ hex_digits b'A' fuel n digits ++ rest
hex_digits-append zero n digits rest = unfold hex_digits in refl
hex_digits-append (suc fuel) n digits rest = elim (Bool-cases (n / 16 == 0)) [
  | inl last ↦
      hex_last fuel n (digits ++ rest) last ∙ ap (◌++ rest) (sym (hex_last fuel n digits last))
  | inr more ↦
      hex_more fuel n (digits ++ rest) more
      ∙ hex_digits-append fuel (n / 16) (hex_digit b'A' (n % 16) ∷ digits) rest
      ∙ ap (◌++ rest) (sym (hex_more fuel n digits more))
]

read_hex-padded_hex :
    (width n : ℕ) → n < 16 ^ 16 → read_hex 0 (padded_hex b'A' width n ++ b')' ∷ []) ≡ n
unfolding padded_hex
read_hex-padded_hex width n small =
    let digits = hex_digits b'A' 16 n [] in
    let zeros = replicate (width - length digits) b'0' in
    ap (read_hex 0) (append_assoc zeros digits (b')' ∷ []))
    ∙ read_hex-zeros (width - length digits) (digits ++ b')' ∷ [])
    ∙ ap (read_hex 0) (sym (hex_digits-append 16 n [] (b')' ∷ [])))
    ∙ read_hex-hex_digits 15 n (b')' ∷ []) small
    ∙ (unfold read_hex in refl)

same_text : List ℕ → List ℕ → Bool
same_text [] [] = true
same_text [] (d ∷ ds) = false
same_text (c ∷ cs) [] = false
same_text (c ∷ cs) (d ∷ ds) = (c == d) && same_text cs ds

-- The command that a table has under a name.
number_of : List (ℕ × List ℕ) → List ℕ → ℕ
unfolding same_text
number_of [] text = 0
number_of ((number, name) ∷ names) text =
    if same_text name text then number else number_of names text

-- The command with a name: only that of an unknown command starts with a U.
command_of : List (ℕ × List ℕ) → List ℕ → ℕ
unfolding number_of read_hex
command_of names [] = 0
command_of names (c ∷ text) =
    if c == b'U' then read_hex 0 (drop 7 text) else number_of names (c ∷ text)

-- What reads every name of the table, and the name for the rest, reads what the table gives.
reads-name_in :
    (read : List ℕ → ℕ) (names : List (ℕ × List ℕ)) (cmd : ℕ) (unknown : List ℕ)
    → All (λ (entry : ℕ × List ℕ). read (entry.1) ≡ entry.0) names
    → read unknown ≡ cmd
    → read (name_in names cmd unknown) ≡ cmd
unfolding name_in
reads-name_in read [] cmd unknown hs h = h
reads-name_in read ((known, name) ∷ names) cmd unknown hs h = elim (Bool-cases (cmd == known)) [
  | inl this ↦ rw this (hs.0 ∙ sym ((==_iff cmd known).0 this))
  | inr other ↦ rw other (reads-name_in read names cmd unknown hs.1 h)
]

-- Every name of a table stands for its own number.
abbrev ReadsBack : List (ℕ × List ℕ) → Type 0
ReadsBack names = All (λ (entry : ℕ × List ℕ). command_of names (entry.1) ≡ entry.0) names

tables_read : ReadsBack command_names × ReadsBack fw_command_names
unfolding command_of number_of same_text
tables_read = omega arith

command_of-name_in :
    (names : List (ℕ × List ℕ)) (width cmd : ℕ)
    → ReadsBack names
    → cmd < 16 ^ 16
    → command_of names (name_in names cmd (unknown_name width cmd)) ≡ cmd
command_of-name_in names width cmd table small =
    let unknown : command_of names (unknown_name width cmd) ≡ cmd =
      unfold command_of in read_hex-padded_hex width cmd small in
    reads-name_in (command_of names) names cmd (unknown_name width cmd) table unknown

-- Two commands of the protocol with one name in the traces are the same command, known or unknown.
-- Condition: they are 32-bit numbers.
pub tf_command_name-injective :
    (a b : ℕ) → a < 2 ^ 32 → b < 2 ^ 32 → tf_command_name a ≡ tf_command_name b → a ≡ b
unfolding tf_command_name
tf_command_name-injective a b small_a small_b same =
    sym (command_of-name_in command_names 4 a tables_read.0 (omega arith))
    ∙ ap (command_of command_names) same
    ∙ command_of-name_in command_names 4 b tables_read.0 (omega arith)

-- The same for the bootloader's commands, which are bytes.
pub fw_command_name-injective :
    (a b : ℕ) → a < 256 → b < 256 → fw_command_name a ≡ fw_command_name b → a ≡ b
unfolding fw_command_name
fw_command_name-injective a b small_a small_b same =
    sym (command_of-name_in fw_command_names 2 a tables_read.1 (omega arith))
    ∙ ap (command_of fw_command_names) same
    ∙ command_of-name_in fw_command_names 2 b tables_read.1 (omega arith)
