-- ===== src/Daemon/Acquire.antt =====
-- `daemon_acquire_lock` (daemon.c): its waits and its outcomes.
use libtopfield.Base.{
  ℕ, zero, suc, ◌+◌, ◌<◌, ◌≤◌, ◌≡◌, ◌⊎◌, inl, inr, refl, arith, Bool, true, false, List, Option,
  some, Bool-cases,
}
use libtopfield.Base.Int.{ℤ, pos, negsuc, pos_part, ltb_ℤ}
use libtopfield.Daemon.{Os, failed, write_pid, lock_rounds, daemon_acquire_lock, pid_line}

-- What the system promises: a lock that was set is held until its file is closed, and the calls
-- that touch no lock leave it. `held w fd` says that this process has it; `waits w` counts sleeps.
pub record Keeps {W : Type 0} (os : Os W) (held : W → ℤ → Bool) (waits : W → ℕ) : Type 0 where
  pub locks :
      (w : W) (fd : ℤ) → failed (os.set_lock w fd).0 ≡ false → held (os.set_lock w fd).1 fd ≡ true
  pub truncate_keeps : (w : W) (fd : ℤ) → held (os.truncate w fd).1 fd ≡ held w fd
  pub write_keeps : (w : W) (fd : ℤ) (b : List ℕ) → held (os.write w fd b).1 fd ≡ held w fd
  pub flags_keep : (w : W) (fd : ℤ) → held (os.get_flags w fd).1 fd ≡ held w fd
  pub cloexec_keeps : (w : W) (fd v : ℤ) → held (os.set_cloexec w fd v).1 fd ≡ held w fd
  pub sleep_counts : (w : W) → waits (os.sleep w 1) ≡ waits w + 1
  pub open_still : (w : W) → waits (os.open_write w).1 ≡ waits w
  pub lock_still : (w : W) (fd : ℤ) → waits (os.set_lock w fd).1 ≡ waits w
  pub close_still : (w : W) (fd : ℤ) → waits (os.close w fd).1 ≡ waits w
  pub truncate_still : (w : W) (fd : ℤ) → waits (os.truncate w fd).1 ≡ waits w
  pub write_still : (w : W) (fd : ℤ) (b : List ℕ) → waits (os.write w fd b).1 ≡ waits w
  pub flags_still : (w : W) (fd : ℤ) → waits (os.get_flags w fd).1 ≡ waits w
  pub cloexec_still : (w : W) (fd v : ℤ) → waits (os.set_cloexec w fd v).1 ≡ waits w

-- How the call ends: with a descriptor that holds the lock, -1 or -2, after so many waits.
pub record Ends {W : Type 0} (held : W → ℤ → Bool) (waits : W → ℕ) (most : ℕ) (r : Option (ℤ × W))
    : Type 0 where
  pub result : ℤ
  pub after : W
  pub returns : r ≡ some (result, after)
  pub outcome : (held after result ≡ true) ⊎ ((result ≡ negsuc 0) ⊎ (result ≡ negsuc 1))
  pub waited : waits after ≤ most

module _ {W : Type 0} (os : Os W) (held : W → ℤ → Bool) (waits : W → ℕ) (k : Keeps os held waits)
    (fd : ℤ) where
  write_pid-Ends :
      (w : W) (most : ℕ)
      → held w fd ≡ true
      → waits w ≤ most
      → Ends held waits most (some (write_pid os w fd))
  unfolding write_pid
  write_pid-Ends w most h few =
      let cut = os.truncate w fd in
      let line = pid_line (os.getpid w) in
      let wrote = os.write (cut.1) fd line in
      let flags = os.get_flags (wrote.1) fd in
      let t = write_pid os w fd in
      record {
        result = t.0;
        after = t.1;
        returns = refl;
        outcome = ground (
          arith,
          k.truncate_keeps w fd,
          k.write_keeps (cut.1) fd line,
          k.flags_keep (wrote.1) fd,
          k.cloexec_keeps (flags.1) fd (flags.0),
          h,
        );
        waited = ground (
          arith,
          few,
          k.truncate_still w fd,
          k.write_still (cut.1) fd line,
          k.flags_still (wrote.1) fd,
          k.cloexec_still (flags.1) fd (flags.0),
          k.close_still (cut.1) fd,
          k.close_still (wrote.1) fd,
        );
      }

  lock_rounds-Ends :
      (fuel tries : ℕ) (block_seconds : ℤ) (w : W) (most : ℕ)
      → pos_part block_seconds < fuel + tries
      → tries ≤ pos_part block_seconds
      → waits w + pos_part block_seconds ≤ most + tries
      → Ends held waits most (lock_rounds os fuel fd block_seconds tries w)
  unfolding lock_rounds
  lock_rounds-Ends zero tries block_seconds w most enough early few = ground (arith, enough, early)
  lock_rounds-Ends (suc fuel) tries block_seconds w most enough early few =
      let r = os.set_lock w fd in
      let still = k.lock_still w fd in
      elim (Bool-cases (failed (r.0))) [
        | inr got ↦
            rw (got, lock_rounds)
              (write_pid-Ends (r.1) most (k.locks w fd got) (omega (arith, still, early, few)))
        | inl refused ↦ elim (Bool-cases (os.busy (r.1))) [
          | inr broken ↦ record {
            result = negsuc 1;
            after = (os.close (r.1) fd).1;
            returns = ground (arith, refused, broken);
            outcome = inr (inr refl);
            waited = omega (arith, still, early, few, k.close_still (r.1) fd);
          }
          | inl busy ↦ elim (Bool-cases (ltb_ℤ (pos tries) block_seconds)) [
            | inr late ↦ record {
              result = negsuc 0;
              after = (os.close (r.1) fd).1;
              returns = ground (arith, refused, busy, late);
              outcome = inr (inl refl);
              waited = omega (arith, still, early, few, k.close_still (r.1) fd);
            }
            | inl wait ↦
                let rest =
                  lock_rounds-Ends fuel (tries + 1) block_seconds (os.sleep (r.1) 1) most
                    (omega (arith, enough)) (ground (arith, wait))
                    (omega (arith, still, few, k.sleep_counts (r.1))) in
                record {
                  result = rest.result;
                  after = rest.after;
                  returns = ground (arith, refused, busy, wait, rest.returns);
                  outcome = rest.outcome;
                  waited = rest.waited;
                }
          ]
        ]
      ]

-- `daemon_acquire_lock` ends, after at most `block_seconds` waits of a second. It returns a
-- descriptor that holds the lock, or -1 or -2. Condition: system calls that keep a lock until its
-- file is closed.
pub daemon_acquire_lock-Ends :
    {W : Type 0} (os : Os W) (held : W → ℤ → Bool) (waits : W → ℕ)
    → Keeps os held waits
    → (w : W) (block_seconds : ℤ)
    → Ends held waits (waits w + pos_part block_seconds) (daemon_acquire_lock os w block_seconds)
unfolding daemon_acquire_lock
daemon_acquire_lock-Ends os held waits k w block_seconds =
    let fd = os.open_write w in
    let still = k.open_still w in
    let run =
      lock_rounds-Ends os held waits k (fd.0) (pos_part block_seconds + 1) 0 block_seconds (fd.1)
        (waits w + pos_part block_seconds) (omega arith) (omega arith) (omega (arith, still)) in
    elim (Bool-cases (failed (fd.0))) [
      | inl e ↦ record {
        result = negsuc 1;
        after = fd.1;
        returns = ground (arith, e);
        outcome = inr (inr refl);
        waited = omega (arith, still);
      }
      | inr e ↦ record {
        result = run.result;
        after = run.after;
        returns = ground (arith, e, run.returns);
        outcome = run.outcome;
        waited = run.waited;
      }
    ]
