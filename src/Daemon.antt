-- ===== src/Daemon.antt =====
-- daemon.c: the lock on a pid file, which keeps a second daemon away.
--
-- The system calls stand behind the record `Os`, over a world `W`; a call gives its result and the
-- world after it. `errno` tells whether a lock that failed is held by another process. The waiting
-- loop runs on fuel, and `none` means that the fuel ran out.
pub mod Acquire
pub mod Holder
pub mod Waiting
use libtopfield.Base.{
  ℕ, zero, suc, ◌+◌, ◌%◌, ◌/◌, ◌*◌, ◌-◌, ◌||◌, Bool, true, false, not, List, [], ◌∷◌, ◌++◌, Option,
  none, some, length, take, ltb, ◌==◌, ◌&&◌, if◌then◌else◌,
}
use libtopfield.Base.Int.{ℤ, pos, negsuc, pos_part, ltb_ℤ, ◌==ℤ◌, ◌*ℕ◌, ◌+ℤ◌, ◌-ℤ◌}

-- The world, as far as the calls of daemon.c see and change it. `set_lock` is fcntl with F_SETLK for
-- a write lock on the whole file; `busy w` says that its error was EACCES or EAGAIN. `read w fd n`
-- reads at most `n` bytes.
pub record Os (W : Type 0) : Type 0 where
  pub open_write : W → ℤ × W
  pub open_read : W → ℤ × W
  pub close : W → ℤ → ℤ × W
  pub set_lock : W → ℤ → ℤ × W
  pub busy : W → Bool
  pub sleep : W → ℕ → W
  pub truncate : W → ℤ → ℤ × W
  pub getpid : W → ℕ
  pub write : W → ℤ → List ℕ → ℤ × W
  pub get_flags : W → ℤ → ℤ × W
  pub set_cloexec : W → ℤ → ℤ → ℤ × W
  pub read : W → ℤ → ℕ → ℤ × List ℕ × W

abbrev pub failed : ℤ → Bool
failed r = ltb_ℤ r (pos 0)

-- `%d` of a number, with at most so many digits.
unfoldable pub decimal : ℕ → ℕ → List ℕ → List ℕ
decimal zero n digits = digits
decimal (suc fuel) n digits =
    let more = decimal fuel (n / 10) ((b'0' + n % 10) ∷ digits) in
    if n / 10 == 0 then (b'0' + n % 10) ∷ digits else more

-- The line that is written, `"%d\n"`; an `int` has at most ten digits.
unfoldable pub pid_line : ℕ → List ℕ
pid_line pid = decimal 10 pid (10 ∷ [])

-- The digits of `atoi`, up to the first other character.
unfoldable pub atoi_digits : ℕ → List ℕ → ℕ
atoi_digits value [] = value
atoi_digits value (c ∷ buf) =
    let rest = atoi_digits (value * 10 + (c - b'0')) buf in
    if ltb 47 c && ltb c 58 then rest else value

-- `atoi`: blanks, a sign and digits. What does not fit an `int` is not defined by C.
unfoldable pub atoi : List ℕ → ℤ
unfolding atoi_digits
atoi [] = pos 0
atoi (c ∷ buf) =
    let rest = atoi buf in
    if (c == 32) || (ltb 8 c && ltb c 14)
    then rest
    else if c == b'-'
    then pos 0 -ℤ pos (atoi_digits 0 buf)
    else if c == b'+'
    then pos (atoi_digits 0 buf)
    else pos (atoi_digits 0 (c ∷ buf))

module _ {W : Type 0} (os : Os W) where
  unfoldable pub daemon_release_lock : W → ℤ → ℤ × W
  daemon_release_lock w lock_fd = os.close w lock_fd

  -- `close(fd); return r;`
  abbrev pub give_up : W → ℤ → ℤ → ℤ × W
  give_up w fd r = (r, (os.close w fd).1)

  -- What follows once the lock is held.
  unfoldable pub write_pid : W → ℤ → ℤ × W
  write_pid w fd =
      let cut = os.truncate w fd in
      let line = pid_line (os.getpid w) in
      let wrote = os.write (cut.1) fd line in
      let flags = os.get_flags (wrote.1) fd in
      if failed (cut.0)
      then give_up (cut.1) fd (negsuc 1)
      else if not (wrote.0 ==ℤ pos (length line))
      then give_up (wrote.1) fd (negsuc 1)
      else if failed (flags.0)
      then (fd, flags.1)
      else (fd, (os.set_cloexec (flags.1) fd (flags.0)).1)

  -- The while loop on the lock, after `tries` waits.
  unfoldable pub lock_rounds : ℕ → ℤ → ℤ → ℕ → W → Option (ℤ × W)
  lock_rounds zero fd block_seconds tries w = none
  lock_rounds (suc fuel) fd block_seconds tries w =
      let r = os.set_lock w fd in
      let more = lock_rounds fuel fd block_seconds (tries + 1) (os.sleep (r.1) 1) in
      if not (failed (r.0))
      then some (write_pid (r.1) fd)
      else if not (os.busy (r.1))
      then some (give_up (r.1) fd (negsuc 1))
      else if not (ltb_ℤ (pos tries) block_seconds)
      then some (give_up (r.1) fd (negsuc 0))
      else more

  unfoldable pub daemon_acquire_lock : W → ℤ → Option (ℤ × W)
  daemon_acquire_lock w block_seconds =
      let fd = os.open_write w in
      if failed (fd.0)
      then some (negsuc 1, fd.1)
      else lock_rounds (pos_part block_seconds + 1) (fd.0) block_seconds 0 (fd.1)

  -- The pid in the file of a lock that another process holds, or 0.
  unfoldable pub holder : W → ℤ × W
  holder w =
      let fd = os.open_read w in
      let got = os.read (fd.1) (fd.0) 9 in
      let pid : ℤ =
        (if ltb_ℤ (pos 0) (got.0) then atoi (take (pos_part (got.0)) (got.1)) else pos 0) in
      if failed (fd.0) then (pos 0, fd.1) else (pid, (os.close (got.2) (fd.0)).1)

  -- The result and what is stored into `*savefd`.
  unfoldable pub daemon_lock_pid : W → Option (ℤ × Option ℤ × W)
  daemon_lock_pid w = elim (daemon_acquire_lock w (pos 0)) [
    | none ↦ none
    | some (fd, t) ↦
        let h = holder t in
        if not (failed fd)
        then some (pos 0, some fd, t)
        else if fd ==ℤ negsuc 0
        then (if h.0 ==ℤ pos 0 then some (pos 1, none, h.1) else some (h.0, none, h.1))
        else some (negsuc 0, none, t)
  ]
