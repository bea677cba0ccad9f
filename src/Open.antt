-- ===== src/Open.antt =====
-- tf_open.c: opening and closing the connection to a device, with the lock that it shares with puppy.
--
-- The system calls and the USB device search stand behind the record `Host`, over a world `W`. A
-- call gives its result and the world after it. `open_lock w index` opens the lock file of that
-- device for writing, `open_usb_dev` says whether a device handle was given and `malloc` whether a
-- buffer was; `free` takes that back. The loop goes round a second time at most, so it runs on fuel
-- two, and `none` means that the fuel ran out.
pub mod Locked
use libtopfield.Base.{
  ℕ, zero, suc, ◌+◌, Bool, true, false, not, List, [], ◌∷◌, Option, none, some, take, ◌==◌, ◌&&◌,
  if◌then◌else◌,
}
use libtopfield.Base.Int.{ℤ, pos, negsuc, pos_part, ltb_ℤ, ◌==ℤ◌}
use libtopfield.Handle.{TfHandle, State, default_timeout}
use libtopfield.Daemon.{pid_line, atoi}

pub record Host (W : Type 0) : Type 0 where
  pub open_lock : W → ℕ → ℤ × W
  pub open_read : W → ℕ → ℤ × W
  pub flock : W → ℤ → ℤ × W
  pub close : W → ℤ → W
  pub getpid : W → ℕ
  pub write : W → ℤ → List ℕ → W
  pub read : W → ℤ → ℕ → ℤ × List ℕ × W
  pub hup : W → ℤ → ℤ × W
  pub sleep : W → ℕ → W
  pub open_usb_dev : W → ℕ → ℕ → ℕ → Bool × W
  pub close_usb_dev : W → W
  pub malloc : W → ℕ → Bool × W
  pub free : W → W

pub data TfLock : Type 0 where
  std : TfLock
  unlocked : TfLock
  hup : TfLock

abbrev pub vendor_id : ℕ
vendor_id = 0x11DB

abbrev pub product_id : ℕ
product_id = 0x1000

-- The handle after `memset` and the first assignments.
abbrev pub blank : TfHandle
blank = record {
  timeout = default_timeout;
  trace_level = 0;
  nocrc = false;
  error = pos 0;
  lock_fd = negsuc 0;
  dev = false;
  pending = false;
  buf = false;
}

module _ {W : Type 0} (host : Host W) where
  -- The pid in the lock file, or 0.
  unfoldable pub lock_holder : W → ℕ → ℤ × W
  lock_holder w index =
      let fd = host.open_read w index in
      let got = host.read (fd.1) (fd.0) 9 in
      let pid : ℤ =
        (if ltb_ℤ (pos 0) (got.0) then atoi (take (pos_part (got.0)) (got.1)) else pos 0) in
      if ltb_ℤ (fd.0) (pos 0) then (pos 0, fd.1) else (pid, host.close (got.2) (fd.0))

  -- Asks the process that has the lock to go; whether to try again.
  unfoldable pub ask_holder : W → ℕ → Bool × W
  ask_holder w index =
      let pid = lock_holder w index in
      let sent = host.hup (pid.1) (pid.0) in
      if not (ltb_ℤ (pos 0) (pid.0))
      then (false, pid.1)
      else if sent.0 ==ℤ pos 0
      then (true, host.sleep (sent.1) 2)
      else (false, sent.1)

  -- The for loop: whether the lock is held, the descriptor and the world.
  unfoldable pub lock_loop : ℕ → Bool → ℕ → W → Option (Bool × ℤ × W)
  lock_loop zero ask index w = none
  lock_loop (suc fuel) ask index w =
      let fd = host.open_lock w index in
      let locked = host.flock (fd.1) (fd.0) in
      let opened = not (ltb_ℤ (fd.0) (pos 0)) in
      let after = (if opened then locked.1 else fd.1) in
      let closed = host.close after (fd.0) in
      let asked = ask_holder closed index in
      let again = lock_loop fuel false index (asked.1) in
      if opened && (locked.0 ==ℤ pos 0)
      then some (true, fd.0, host.write after (fd.0) (pid_line (host.getpid after)))
      else if not ask
      then some (false, fd.0, closed)
      else if not (asked.0)
      then some (false, fd.0, asked.1)
      else again

  -- Behind the lock. Nothing tests the buffer that `malloc` gives.
  unfoldable pub open_device : ℕ → ℤ → W → ℤ × State W
  open_device index lock_fd w =
      let dev = host.open_usb_dev w vendor_id product_id index in
      let buf = host.malloc (dev.1) 0x10000 in
      if dev.0
      then (
        pos 0,
        record { tf = record blank { lock_fd = lock_fd; dev = true; buf = buf.0 }; world = buf.1 },
      )
      else (negsuc 0, record { tf = blank; world = host.close (dev.1) lock_fd })

  -- The lock kinds other than TF_LOCK_NONE.
  unfoldable pub open_locked : ℕ → Bool → W → Option (ℤ × State W)
  open_locked index ask w = elim (lock_loop 2 ask index w) [
    | none ↦ none
    | some (held, fd, t) ↦
        if held
        then some (open_device index fd t)
        else some (pos 1, record { tf = record blank { lock_fd = fd }; world = t })
  ]

  unfoldable pub topfield_open : ℕ → TfLock → W → Option (ℤ × State W)
  topfield_open index unlocked w = some (open_device index (negsuc 0) w)
  topfield_open index std w = open_locked index false w
  topfield_open index hup w = open_locked index true w

  unfoldable pub topfield_close : State W → State W
  topfield_close s =
      if s.tf.dev
      then record {
        tf = record (s.tf) { dev = false; buf = false };
        world = host.close (host.free (host.close_usb_dev s.world)) s.tf.lock_fd;
      }
      else s
