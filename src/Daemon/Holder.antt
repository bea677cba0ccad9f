-- ===== src/Daemon/Holder.antt =====
-- The pid in the file of a held lock (daemon.c): what `daemon_acquire_lock` writes there,
-- `daemon_lock_pid` reads.
use libtopfield.Base.{
  ℕ, zero, suc, ◌+◌, ◌-◌, ◌*◌, ◌/◌, ◌%◌, ◌^◌, ◌≤◌, ◌<◌, ◌≡◌, refl, ap, sym, ◌∙◌, arith, true, false,
  List, [], ◌∷◌, ◌++◌, none, some, length, take, ◌==◌, Bool-cases, inl, inr, take-append,
  length-append,
}
use native.Mathlib.Nat.{pow-suc}
use libtopfield.Base.Int.{pos, negsuc, ltb_ℤ}
use libtopfield.Daemon.{
  Os, failed, decimal, pid_line, atoi_digits, atoi, lock_rounds, daemon_acquire_lock, holder,
  daemon_lock_pid,
}

atoi_digits_step :
    (value c : ℕ) (buf : List ℕ)
    → 48 ≤ c
    → c ≤ 57
    → atoi_digits value (c ∷ buf) ≡ atoi_digits (value * 10 + (c - 48)) buf
unfolding atoi_digits
atoi_digits_step value c buf lo hi = ground arith

decimal_last :
    (fuel n : ℕ) (rest : List ℕ)
    → (n / 10 == 0) ≡ true
    → decimal (suc fuel) n rest ≡ (48 + n % 10) ∷ rest
unfolding decimal
decimal_last fuel n rest last = rw last refl

decimal_more :
    (fuel n : ℕ) (rest : List ℕ)
    → (n / 10 == 0) ≡ false
    → decimal (suc fuel) n rest ≡ decimal fuel (n / 10) ((48 + n % 10) ∷ rest)
unfolding decimal
decimal_more fuel n rest more = rw more refl

-- One more digit in front.
tenth_small : (k n : ℕ) → n < 10 ^ suc (suc k) → n / 10 < 10 ^ suc k
tenth_small k n small = omega (arith, pow-suc 10 (suc k))

-- The last digit, once the ones before it have been read.
last_digit :
    (n : ℕ) (rest : List ℕ) → atoi_digits (n / 10) ((48 + n % 10) ∷ rest) ≡ atoi_digits n rest
last_digit n rest =
    let same : n / 10 * 10 + (48 + n % 10 - 48) ≡ n = omega arith in
    atoi_digits_step (n / 10) (48 + n % 10) rest (omega arith) (omega arith)
    ∙ ap (λ v. atoi_digits v rest) same

one_digit :
    (fuel n : ℕ) (rest : List ℕ)
    → (n / 10 == 0) ≡ true
    → atoi_digits 0 (decimal (suc fuel) n rest) ≡ atoi_digits n rest
one_digit fuel n rest last =
    let zero_is : n / 10 ≡ 0 = ground (arith, last) in
    ap (atoi_digits 0) (decimal_last fuel n rest last)
    ∙ ap (λ v. atoi_digits v ((48 + n % 10) ∷ rest)) (sym zero_is)
    ∙ last_digit n rest

-- The digits of a number add up to it, whatever follows them.
atoi_digits-decimal :
    (fuel n : ℕ) (rest : List ℕ)
    → n < 10 ^ suc fuel
    → atoi_digits 0 (decimal (suc fuel) n rest) ≡ atoi_digits n rest
atoi_digits-decimal zero n rest small = one_digit zero n rest (ground arith)
atoi_digits-decimal (suc fuel) n rest small = elim (Bool-cases (n / 10 == 0)) [
  | inl last ↦ one_digit (suc fuel) n rest last
  | inr more ↦
      ap (atoi_digits 0) (decimal_more (suc fuel) n rest more)
      ∙ atoi_digits-decimal fuel (n / 10) ((48 + n % 10) ∷ rest) (tenth_small fuel n small)
      ∙ last_digit n rest
]

decimal-append :
    (fuel n : ℕ) (digits rest : List ℕ)
    → decimal fuel n (digits ++ rest) ≡ decimal fuel n digits ++ rest
decimal-append zero n digits rest = unfold decimal in refl
decimal-append (suc fuel) n digits rest = elim (Bool-cases (n / 10 == 0)) [
  | inl last ↦
      decimal_last fuel n (digits ++ rest) last
      ∙ ap (◌++ rest) (sym (decimal_last fuel n digits last))
  | inr more ↦
      decimal_more fuel n (digits ++ rest) more
      ∙ decimal-append fuel (n / 10) ((48 + n % 10) ∷ digits) rest
      ∙ ap (◌++ rest) (sym (decimal_more fuel n digits more))
]

length-decimal :
    (k fuel n : ℕ) (digits : List ℕ)
    → n < 10 ^ suc k
    → length (decimal (suc fuel) n digits) ≤ suc k + length digits
length-decimal zero fuel n digits small =
    rw (decimal_last fuel n digits (ground arith)) (omega arith)
length-decimal (suc k) zero n digits small = unfold decimal in ground arith
length-decimal (suc k) (suc fuel) n digits small = elim (Bool-cases (n / 10 == 0)) [
  | inl last ↦ rw (decimal_last (suc fuel) n digits last) (omega arith)
  | inr more ↦
      let shorter =
        length-decimal k fuel (n / 10) ((48 + n % 10) ∷ digits) (tenth_small k n small) in
      rw (decimal_more (suc fuel) n digits more) (omega (arith, shorter))
]

-- A text that starts with a digit, as `atoi` takes it.
record Starts (text : List ℕ) : Type 0 where
  pub c : ℕ
  pub buf : List ℕ
  pub text_is : text ≡ c ∷ buf
  pub lo : 48 ≤ c
  pub hi : c ≤ 57

digit-Starts : (n : ℕ) (rest : List ℕ) → Starts ((48 + n % 10) ∷ rest)
digit-Starts n rest = record {
  c = 48 + n % 10;
  buf = rest;
  text_is = refl;
  lo = omega arith;
  hi = omega arith;
}

decimal-Starts : (fuel n : ℕ) (rest : List ℕ) → Starts rest → Starts (decimal fuel n rest)
decimal-Starts zero n rest s = unfold decimal in s
decimal-Starts (suc fuel) n rest s = elim (Bool-cases (n / 10 == 0)) [
  | inl last ↦ rw (decimal_last fuel n rest last) (digit-Starts n rest)
  | inr more ↦
      rw (decimal_more fuel n rest more)
        (decimal-Starts fuel (n / 10) ((48 + n % 10) ∷ rest) (digit-Starts n rest))
]

atoi-Starts : (text : List ℕ) → Starts text → atoi text ≡ pos (atoi_digits 0 text)
unfolding atoi
atoi-Starts text s = rw s.text_is (ground (arith, s.lo, s.hi))

take_all : (n : ℕ) (xs : List ℕ) → length xs ≤ n → take n xs ≡ xs
take_all zero [] h = refl
take_all zero (x ∷ xs) h = absurd (omega arith)
take_all (suc n) [] h = refl
take_all (suc n) (x ∷ xs) h = ap (◌∷◌ x) (take_all n xs (omega arith))

digits-Starts : (fuel n : ℕ) (rest : List ℕ) → Starts (decimal (suc fuel) n rest)
digits-Starts fuel n rest = elim (Bool-cases (n / 10 == 0)) [
  | inl last ↦ rw (decimal_last fuel n rest last) (digit-Starts n rest)
  | inr more ↦
      rw (decimal_more fuel n rest more)
        (decimal-Starts fuel (n / 10) ((48 + n % 10) ∷ rest) (digit-Starts n rest))
]

-- The nine bytes that `daemon_lock_pid` reads of the line are enough for a pid of nine digits.
atoi-pid_line : (pid : ℕ) → pid < 10 ^ 9 → atoi (take 9 (pid_line pid)) ≡ pos pid
unfolding pid_line
atoi-pid_line pid small =
    let digits = decimal 10 pid [] in
    let line_is : decimal 10 pid (10 ∷ []) ≡ digits ++ 10 ∷ [] =
      decimal-append 10 pid [] (10 ∷ []) in
    let few = length-decimal 8 9 pid [] small in
    let fits : pid < 10 ^ 10 = omega arith in
    let value : atoi_digits 0 digits ≡ pid =
      atoi_digits-decimal 9 pid [] fits ∙ (unfold atoi_digits in refl) in
    let line_value : atoi_digits 0 (decimal 10 pid (10 ∷ [])) ≡ pid =
      atoi_digits-decimal 9 pid (10 ∷ []) fits ∙ (unfold atoi_digits in refl) in
    elim (Bool-cases (length digits == 9)) [
      | inl nine ↦
          let cut : take 9 (digits ++ 10 ∷ []) ≡ digits =
            take-append 9 digits (10 ∷ []) (ground (arith, nine)) in
          ap (λ text. atoi (take 9 text)) line_is
          ∙ ap atoi cut
          ∙ atoi-Starts digits (digits-Starts 9 pid [])
          ∙ ap pos value
      | inr fewer ↦
          let whole : take 9 (digits ++ 10 ∷ []) ≡ digits ++ 10 ∷ [] =
            take_all 9 (digits ++ 10 ∷ [])
              (ground (arith, length-append digits (10 ∷ []), few, fewer)) in
          ap (λ text. atoi (take 9 text)) line_is
          ∙ ap atoi (whole ∙ sym line_is)
          ∙ atoi-Starts (decimal 10 pid (10 ∷ [])) (digits-Starts 9 pid (10 ∷ []))
          ∙ ap pos line_value
    ]

-- The first bytes of the line.
read_bytes-Starts : (n : ℕ) (text : List ℕ) → Starts text → 0 < length (take (suc n) text)
read_bytes-Starts n text s = rw s.text_is (omega arith)

acquire_refused :
    {W : Type 0} (os : Os W) (w : W)
    → let fd = os.open_write w in
      let tried = os.set_lock (fd.1) (fd.0) in
      failed (fd.0) ≡ false
      → failed (tried.0) ≡ true
      → os.busy (tried.1) ≡ true
      → daemon_acquire_lock os w (pos 0) ≡ some (negsuc 0, (os.close (tried.1) (fd.0)).1)
unfolding daemon_acquire_lock lock_rounds
acquire_refused os w opened refused busy = ground (arith, opened, refused, busy)

holder-pid_line :
    {W : Type 0} (os : Os W) (w after : W) (pid : ℕ)
    → let fd = os.open_read w in
      pid < 10 ^ 9
      → failed (fd.0) ≡ false
      → os.read (fd.1) (fd.0) 9
        ≡ (pos (length (take 9 (pid_line pid))), take 9 (pid_line pid), after)
      → holder os w ≡ (pos pid, (os.close after (fd.0)).1)
unfolding holder
holder-pid_line os w after pid small readable reads =
    let text = take 9 (pid_line pid) in
    let some_text : 0 < length text =
      read_bytes-Starts 8 (pid_line pid) (unfold pid_line in digits-Starts 9 pid (10 ∷ [])) in
    let some_bytes : ltb_ℤ (pos 0) (pos (length text)) ≡ true = ground (arith, some_text) in
    let same : atoi (take (length text) text) ≡ pos pid =
      ap atoi (take_all (length text) text (omega arith)) ∙ atoi-pid_line pid small in
    rw (readable, reads, some_bytes, same) refl

-- `daemon_lock_pid` where another process holds the lock: it returns the pid that this process
-- wrote with `daemon_acquire_lock`, stores no descriptor, and closes the file that it read.
-- Conditions: the first try of the lock fails because another process has it, the file opens, the
-- read gives the first nine bytes of the line, and the pid has at most nine digits and is not 0.
pub daemon_lock_pid-pid_line :
    {W : Type 0} (os : Os W) (w after : W) (pid : ℕ)
    → let fd = os.open_write w in
      let tried = os.set_lock (fd.1) (fd.0) in
      let reading = os.open_read ((os.close (tried.1) (fd.0)).1) in
      0 < pid
      → pid < 10 ^ 9
      → failed (fd.0) ≡ false
      → failed (tried.0) ≡ true
      → os.busy (tried.1) ≡ true
      → failed (reading.0) ≡ false
      → os.read (reading.1) (reading.0) 9
        ≡ (pos (length (take 9 (pid_line pid))), take 9 (pid_line pid), after)
      → daemon_lock_pid os w ≡ some (pos pid, none, (os.close after (reading.0)).1)
unfolding daemon_lock_pid
daemon_lock_pid-pid_line os w after pid some_pid small opened refused busy readable reads =
    let fd = os.open_write w in
    let closed = (os.close ((os.set_lock (fd.1) (fd.0)).1) (fd.0)).1 in
    let acquired = acquire_refused os w opened refused busy in
    let held = holder-pid_line os closed after pid small readable reads in
    ground (arith, acquired, held, some_pid)
