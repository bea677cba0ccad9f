-- ===== src/Io/Errors.antt =====
-- `tf->error` and the settings of the handle over a command (tf_io.c).
use libtopfield.Base.{ℕ, ◌≡◌, arith, List, some, Bool-cases, inl, inr}
use libtopfield.Base.Int.{ℤ, ◌==ℤ◌}
use libtopfield.Handle.{TfHandle, State, Usb, M, >>=-eq-some}
use libtopfield.Io.{tf_send, tf_get_response, tf_cmd, Reply, if_ok}
use libtopfield.Err

-- The parts of the handle that no packet changes.
pub record SameSettings (a b : TfHandle) : Type 0 where
  pub timeout_kept : b.timeout ≡ a.timeout
  pub trace_kept : b.trace_level ≡ a.trace_level
  pub nocrc_kept : b.nocrc ≡ a.nocrc
  pub lock_kept : b.lock_fd ≡ a.lock_fd
  pub dev_kept : b.dev ≡ a.dev
  pub pending_kept : b.pending ≡ a.pending
  pub buf_kept : b.buf ≡ a.buf

-- The returned code is the stored one.
pub record Stores {W : Type 0} (s t : State W) (ret : ℤ) : Type 0 where
  pub stored : t.tf.error ≡ ret
  pub settings : SameSettings s.tf t.tf

module _ {W : Type 0} (usb : Usb W) where
  pub tf_send-Stores :
      (req : List ℕ) (s t : State W) (ret : ℤ) → tf_send usb req s ≡ some (ret, t) → Stores s t ret
  unfolding tf_send
  tf_send-Stores req s t ret e = ground arith

  pub tf_get_response-Stores :
      (s t : State W) (ret : ℤ) (reply : Reply)
      → tf_get_response usb s ≡ some ((ret, reply), t)
      → Stores s t ret
  unfolding tf_get_response
  tf_get_response-Stores s t ret reply e = ground arith

  Stores-trans : {s t u : State W} {a b : ℤ} → Stores s t a → Stores t u b → Stores s u b
  Stores-trans p q = ground arith

  Stores-same : {s : State W} {e : ℤ} → s.tf.error ≡ e → Stores s s e
  Stores-same h = ground arith

  -- A step that is taken only after success, or not at all.
  if_ok-Stores :
      (k : M W ℤ) (s t : State W) (r ret : ℤ)
      → s.tf.error ≡ r
      → ((u : State W) → k s ≡ some (ret, u) → Stores s u ret)
      → if_ok r k s ≡ some (ret, t)
      → Stores s t ret
  if_ok-Stores k s t r ret h after e = elim (Bool-cases (r ==ℤ Err.ok)) [
    | inl yes_ ↦ after t (rw yes_ at e)
    | inr no_ ↦ let e' = rw no_ at e in ground (arith, e')
  ]

  -- What `tf_cmd` returns is what it leaves in `tf->error`, on every path.
  pub tf_cmd-Stores :
      (req : List ℕ) (s t : State W) (ret : ℤ) → tf_cmd usb req s ≡ some (ret, t) → Stores s t ret
  unfolding tf_cmd
  tf_cmd-Stores req s t ret e =
      let (sent, s1, e1, k1) = >>=-eq-some (tf_send usb req) _ s e in
      let first = tf_send-Stores req s s1 sent e1 in
      Stores-trans first (
        if_ok-Stores _ s1 t sent ret first.stored
          (λ u e2.
            let ((got, reply), s2, e3, k2) = >>=-eq-some (tf_get_response usb) _ s1 e2 in
            let second = tf_get_response-Stores s1 s2 got reply e3 in
            Stores-trans second
              (if_ok-Stores _ s2 u got ret second.stored (λ v e4. ground (arith, e4, second)) k2))
          k1)
