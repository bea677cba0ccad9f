-- ===== src/Examples/Locks.antt =====
-- Examples of the locks, over a system in which another process holds the lock for a while.
use libtopfield.Base.{
  ℕ, ◌+◌, ◌-◌, ◌≡◌, refl, arith, Bool, true, false, [], ◌∷◌, some, none, length, take, ◌==◌,
  if◌then◌else◌,
}
use libtopfield.Base.Int.{ℤ, pos, negsuc}
use libtopfield.Daemon.{Os, daemon_acquire_lock, daemon_lock_pid, atoi, pid_line, decimal}
use libtopfield.Open.{
  Host, hup, blank, topfield_open, open_locked, open_device, lock_loop, ask_holder, lock_holder,
}
use libtopfield.Daemon.Acquire.{Keeps, Ends, daemon_acquire_lock-Ends}
use libtopfield.Daemon.Holder.{daemon_lock_pid-pid_line}
use libtopfield.Daemon.Waiting.{Frees, Writes, Locks, daemon_acquire_lock-Locks}

-- The other process lets go after `left` more seconds.
record Desk : Type 0 where
  pub left : ℕ
  pub waited : ℕ
  pub mine : Bool

abbrev try_lock : Desk → ℤ × Desk
try_lock w = if w.left == 0 then (pos 0, record w { mine = true }) else (negsuc 0, w)

abbrev system : Os Desk
system = record {
  open_write = λ w. (pos 3, w);
  open_read = λ w. (pos 3, w);
  close = λ w fd. (pos 0, record w { mine = false });
  set_lock = λ w fd. try_lock w;
  busy = λ w. true;
  sleep = λ w n. record w { left = w.left - n; waited = w.waited + n };
  truncate = λ w fd. (pos 0, w);
  getpid = λ w. 42;
  write = λ w fd bytes. (pos (length bytes), w);
  get_flags = λ w fd. (pos 0, w);
  set_cloexec = λ w fd flags. (pos 0, w);
  read = λ w fd n. (pos (length (take n (pid_line 1234))), take n (pid_line 1234), w);
}

abbrev held : Desk → ℤ → Bool
held w fd = w.mine

abbrev waits : Desk → ℕ
waits w = w.waited

keeps : Keeps system held waits
keeps = record {
  locks = λ w fd e. ground (arith, e);
  truncate_keeps = λ w fd. refl;
  write_keeps = λ w fd b. refl;
  flags_keep = λ w fd. refl;
  cloexec_keeps = λ w fd v. refl;
  sleep_counts = λ w. refl;
  open_still = λ w. refl;
  lock_still = λ w fd. ground arith;
  close_still = λ w fd. refl;
  truncate_still = λ w fd. refl;
  write_still = λ w fd b. refl;
  flags_still = λ w fd. refl;
  cloexec_still = λ w fd v. refl;
}

abbrev desk : Desk
desk = record { left = 2; waited = 0; mine = false }

daemon_acquire_lock-Ends_example :
    Ends held waits (waits desk + 5) (daemon_acquire_lock system desk (pos 5))
daemon_acquire_lock-Ends_example = daemon_acquire_lock-Ends system held waits keeps desk (pos 5)

-- The lock is free at the third try.
free_soon : Frees system (pos 3) 2 desk
free_soon = Frees.later 1 desk refl refl (Frees.later 0 _ refl refl (Frees.now _ refl))

writes : Writes system
writes = record { cuts = λ w fd. refl; wrote = λ w fd line. refl }

daemon_acquire_lock-Locks_example : Locks held (pos 3) (daemon_acquire_lock system desk (pos 5))
daemon_acquire_lock-Locks_example =
    daemon_acquire_lock-Locks system held waits keeps writes desk (pos 5) 2 refl free_soon
      (omega arith)

daemon_lock_pid-pid_line_example : daemon_lock_pid system desk ≡ some (pos 1234, none, desk)
unfolding pid_line decimal
daemon_lock_pid-pid_line_example =
    daemon_lock_pid-pid_line system desk desk 1234 (omega arith) (omega arith) refl refl refl refl
      refl

abbrev host : Host Desk
host = record {
  open_lock = λ w index. (pos 3, w);
  open_read = λ w index. (pos 4, w);
  flock = λ w fd. try_lock w;
  close = λ w fd. record w { mine = false };
  getpid = λ w. 42;
  write = λ w fd bytes. w;
  read = λ w fd n. (pos 3, b'1' ∷ b'7' ∷ 10 ∷ [], w);
  hup = λ w pid. (pos 0, record w { left = 0 });
  sleep = λ w n. record w { waited = w.waited + n };
  open_usb_dev = λ w vendor product index. (true, w);
  close_usb_dev = λ w. w;
  malloc = λ w n. (true, w);
  free = λ w. w;
}

-- The holder of the lock is asked to go, and the second try gets it.
hup_opens :
    topfield_open host 0 hup desk
    ≡ some (
      pos 0,
      record {
        tf = record blank { lock_fd = pos 3; dev = true; buf = true };
        world = record { left = 0; waited = 2; mine = true };
      },
    )
unfolding topfield_open open_locked open_device lock_loop ask_holder lock_holder atoi pid_line
    decimal
hup_opens = refl
