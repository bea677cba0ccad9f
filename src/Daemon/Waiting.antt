-- ===== src/Daemon/Waiting.antt =====
-- A lock that becomes free while `daemon_acquire_lock` (daemon.c) waits.
use libtopfield.Base.{
  ℕ, zero, suc, ◌+◌, ◌≤◌, ◌<◌, ◌≡◌, arith, Bool, true, false, List, Option, some, length,
}
use libtopfield.Base.Int.{ℤ, pos, pos_part, ltb_ℤ}
use libtopfield.Daemon.{Os, failed, write_pid, lock_rounds, daemon_acquire_lock, pid_line}
use libtopfield.Daemon.Acquire.{Keeps}

-- The lock is free after `n` more sleeps of a second, each after a try that found it busy.
pub data Frees {W : Type 0} (os : Os W) (fd : ℤ) : ℕ → W → Type 0 where
  now : (w : W) → failed (os.set_lock w fd).0 ≡ false → Frees os fd 0 w
  later :
      (n : ℕ) (w : W)
      → failed (os.set_lock w fd).0 ≡ true
      → os.busy (os.set_lock w fd).1 ≡ true
      → Frees os fd n (os.sleep (os.set_lock w fd).1 1)
      → Frees os fd (suc n) w

-- The pid file can be emptied and written.
pub record Writes {W : Type 0} (os : Os W) : Type 0 where
  pub cuts : (w : W) (fd : ℤ) → failed (os.truncate w fd).0 ≡ false
  pub wrote : (w : W) (fd : ℤ) (line : List ℕ) → (os.write w fd line).0 ≡ pos (length line)

-- The lock is taken on `fd`.
pub record Locks {W : Type 0} (held : W → ℤ → Bool) (fd : ℤ) (r : Option (ℤ × W)) : Type 0 where
  pub after : W
  pub returns : r ≡ some (fd, after)
  pub holds : held after fd ≡ true

module _ {W : Type 0} (os : Os W) (held : W → ℤ → Bool) (waits : W → ℕ) (k : Keeps os held waits)
    (writes : Writes os) (fd : ℤ) where
  write_pid-Locks : (w : W) → held w fd ≡ true → Locks held fd (some (write_pid os w fd))
  unfolding write_pid
  write_pid-Locks w h =
      let cut = os.truncate w fd in
      let line = pid_line (os.getpid w) in
      let wrote = os.write (cut.1) fd line in
      let flags = os.get_flags (wrote.1) fd in
      let cuts = writes.cuts w fd in
      let all = writes.wrote (cut.1) fd line in
      record {
        after = (write_pid os w fd).1;
        returns = ground (arith, cuts, all);
        holds = ground (
          arith,
          cuts,
          all,
          k.truncate_keeps w fd,
          k.write_keeps (cut.1) fd line,
          k.flags_keep (wrote.1) fd,
          k.cloexec_keeps (flags.1) fd (flags.0),
          h,
        );
      }

  lock_rounds-Locks :
      (fuel tries n : ℕ) (block_seconds : ℤ) (w : W)
      → Frees os fd n w
      → n + tries ≤ pos_part block_seconds
      → n < fuel
      → Locks held fd (lock_rounds os fuel fd block_seconds tries w)
  unfolding lock_rounds
  lock_rounds-Locks zero tries n block_seconds w frees time_left enough = absurd (omega arith)
  lock_rounds-Locks (suc fuel) tries _ block_seconds _ (Frees.now w free) time_left enough =
      let r = os.set_lock w fd in
      let l = write_pid-Locks (r.1) (k.locks w fd free) in
      record { after = l.after; returns = ground (arith, free, l.returns); holds = l.holds }
  lock_rounds-Locks (suc fuel) tries _ block_seconds _ (Frees.later n w refused busy frees)
        time_left enough =
      let r = os.set_lock w fd in
      let early : ltb_ℤ (pos tries) block_seconds ≡ true = ground (arith, time_left) in
      let l =
        lock_rounds-Locks fuel (tries + 1) n block_seconds (os.sleep (r.1) 1) frees (omega arith)
          (omega arith) in
      record {
        after = l.after;
        returns = ground (arith, refused, busy, early, l.returns);
        holds = l.holds;
      }

-- `daemon_acquire_lock` gets a lock that becomes free within `block_seconds`: the result is the
-- descriptor of the pid file, and the lock is held on it. Conditions: the file opens, each try
-- before that finds the lock busy, the file can be emptied and written, and the system calls keep
-- a lock until its file is closed.
pub daemon_acquire_lock-Locks :
    {W : Type 0} (os : Os W) (held : W → ℤ → Bool) (waits : W → ℕ)
    → Keeps os held waits
    → Writes os
    → (w : W) (block_seconds : ℤ) (n : ℕ) → failed (os.open_write w).0 ≡ false
    → Frees os (os.open_write w).0 n (os.open_write w).1
    → n ≤ pos_part block_seconds
    → Locks held (os.open_write w).0 (daemon_acquire_lock os w block_seconds)
unfolding daemon_acquire_lock
daemon_acquire_lock-Locks os held waits k writes w block_seconds n opened frees soon =
    let fd = os.open_write w in
    let l =
      lock_rounds-Locks os held waits k writes (fd.0) (pos_part block_seconds + 1) 0 n block_seconds
        (fd.1) frees (omega arith) (omega arith) in
    record { after = l.after; returns = ground (arith, opened, l.returns); holds = l.holds }
