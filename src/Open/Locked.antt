-- ===== src/Open/Locked.antt =====
-- The outcomes of `topfield_open` (tf_open.c).
use libtopfield.Base.{ℕ, ◌≡◌, ◌⊎◌, Bool, true, false, List, Option, some}
use libtopfield.Base.Int.{ℤ, pos, negsuc}
use libtopfield.Handle.{State}
use libtopfield.Open.{Host, TfLock, unlocked}

-- What the system promises: flock gives the lock, and writing the pid, opening the device and
-- allocating the buffer keep it.
pub record Guards {W : Type 0} (host : Host W) (held : W → ℤ → Bool) : Type 0 where
  pub locks : (w : W) (fd : ℤ) → (host.flock w fd).0 ≡ pos 0 → held (host.flock w fd).1 fd ≡ true
  pub write_keeps : (w : W) (fd : ℤ) (b : List ℕ) → held (host.write w fd b) fd ≡ held w fd
  pub malloc_keeps : (w : W) (n : ℕ) (fd : ℤ) → held (host.malloc w n).1 fd ≡ held w fd
  pub usb_keeps : (w : W) (v p i : ℕ) (fd : ℤ) → held (host.open_usb_dev w v p i).1 fd ≡ held w fd

-- The outcomes of `topfield_open`.
pub record Opens {W : Type 0} (host : Host W) (held : W → ℤ → Bool) (lock : TfLock)
    (r : Option (ℤ × State W)) : Type 0 where
  pub result : ℤ
  pub after : State W
  pub returns : r ≡ some (result, after)
  pub outcome :
      ((result ≡ pos 0)
        × (after.tf.dev ≡ true)
        × ((t : W) × (after.tf.buf ≡ (host.malloc t 0x10000).0)
            × (after.world ≡ (host.malloc t 0x10000).1))
        × ((lock ≡ unlocked) ⊎ (held after.world after.tf.lock_fd ≡ true)))
      ⊎ (((result ≡ pos 1) ⊎ (result ≡ negsuc 0)) × (after.tf.dev ≡ false) × (after.tf.buf ≡ false))

module _ {W : Type 0} (host : Host W) (held : W → ℤ → Bool) (g : Guards host held) where
  -- How the lock loop ends.
  record Loops (r : Option (Bool × ℤ × W)) : Type 0 where
    pub got : Bool
    pub fd : ℤ
    pub world : W
    pub returns : r ≡ some (got, fd, world)
    pub holds : got ≡ true → held world fd ≡ true
