-- ===== src/Io/Faults.antt =====
-- Where `tf_get_response` and `tf_cmd` (tf_io.c) run past a packet.
use libtopfield.Base.{
  ℕ, ◌<◌, ◌≡◌, ◌↔◌, ◌⊎◌, ◌≢◌, refl, ap, sym, ◌∙◌, arith, true, false, List, none, Bool-cases,
  Option-cases, inl, inr, ltb, ◌||◌,
}
use libtopfield.Base.Int.{pos, ◌≤ℤ◌, ltb_ℤ, ◌==ℤ◌, ==ℤ_iff}
use libtopfield.Bytes.{get_u16_raw}
use libtopfield.Packet.{packet_size}
use libtopfield.Handle.{Usb, State, >>=-some}
use libtopfield.Io.{tf_send, tf_get_response, tf_cmd, unpack_reply, check_reply}
use libtopfield.Io.Answers.{received}
use libtopfield.Io.Exchange.{sent_length, sent_ok}
use libtopfield.Err

-- A reply that is whole but says that it has less than four bytes, and whose CRC is tested.
pub record IsShort {W : Type 0} (usb : Usb W) (s : State W) : Type 0 where
  pub connected : s.tf.dev ≡ true
  pub tested : s.tf.nocrc ≡ false
  pub whole : pos 8 ≤ℤ (usb.bulk_read s.world 0x82 packet_size s.tf.timeout).0
  pub short : get_u16_raw (usb.bulk_read s.world 0x82 packet_size s.tf.timeout).1 < 4

module _ {W : Type 0} (usb : Usb W) where
  response_runs_past : (s : State W) → IsShort usb s → tf_get_response usb s ≡ none
  unfolding tf_get_response unpack_reply check_reply
  response_runs_past s i =
      let got = usb.bulk_read s.world 0x82 packet_size s.tf.timeout in
      let came : (ltb_ℤ got.0 (pos 8) || ltb_ℤ got.0 (pos (get_u16_raw got.1))) ≡ false =
        ground (arith, i.whole, i.short) in
      let below : ltb (get_u16_raw got.1) 4 ≡ true = ground (arith, i.short) in
      rw (i.connected, came, i.tested, below) refl

  response_past : (s : State W) → tf_get_response usb s ≡ none → IsShort usb s
  unfolding tf_get_response unpack_reply check_reply
  response_past s e =
      let got = usb.bulk_read s.world 0x82 packet_size s.tf.timeout in
      let len = get_u16_raw got.1 in
      elim (Bool-cases s.tf.dev) [
        | inr closed ↦ let e' = rw closed at e in ground (arith, e')
        | inl dev ↦ elim (Bool-cases (ltb_ℤ got.0 (pos 8) || ltb_ℤ got.0 (pos len))) [
          | inl few ↦ let e' = rw (dev, few) at e in ground (arith, e')
          | inr whole ↦ elim (Bool-cases s.tf.nocrc) [
            | inl untested ↦ let e' = rw (dev, whole, untested) at e in ground (arith, e')
            | inr tested ↦ elim (Bool-cases (ltb len 4)) [
              | inl below ↦ record {
                connected = dev;
                tested = tested;
                whole = ground (arith, whole);
                short = ground (arith, below);
              }
              | inr long ↦ let e' = rw (dev, whole, tested, long) at e in ground (arith, e')
            ]
          ]
        ]
      ]

  not_sent :
      (req : List ℕ) (s : State W)
      → (s.tf.dev ≡ false)
        ⊎ (((usb.bulk_write s.world 0x01 req (sent_length req) s.tf.timeout).0
              ==ℤ pos (sent_length req))
            ≡ false)
      → tf_cmd usb req s ≢ none
  unfolding tf_cmd tf_send
  not_sent req s (inl closed) e = let e' = rw closed at e in ground (arith, e')
  not_sent req s (inr short) e = elim (Bool-cases s.tf.dev) [
    | inl dev ↦ let e' = rw (dev, short) at e in ground (arith, e')
    | inr closed ↦ let e' = rw closed at e in ground (arith, e')
  ]

  command_runs_past :
      (req : List ℕ) (s : State W) (w : W)
      → s.tf.dev ≡ true
      → usb.bulk_write s.world 0x01 req (sent_length req) s.tf.timeout ≡ (pos (sent_length req), w)
      → IsShort usb (received s w Err.ok)
      → tf_cmd usb req s ≡ none
  unfolding tf_cmd
  command_runs_past req s w dev takes short =
      let past = response_runs_past (received s w Err.ok) short in
      >>=-some (tf_send usb req) _ s (sent_ok usb s req w dev takes) ∙ ground (arith, past)

  command_past :
      (req : List ℕ) (s : State W) (w : W)
      → s.tf.dev ≡ true
      → usb.bulk_write s.world 0x01 req (sent_length req) s.tf.timeout ≡ (pos (sent_length req), w)
      → tf_cmd usb req s ≡ none
      → IsShort usb (received s w Err.ok)
  unfolding tf_cmd
  command_past req s w dev takes e =
      let rest = sym (>>=-some (tf_send usb req) _ s (sent_ok usb s req w dev takes)) ∙ e in
      elim (Option-cases (tf_get_response usb (received s w Err.ok))) [
        | inl past ↦ response_past (received s w Err.ok) past
        | inr (r, gets) ↦
            let rest' = sym (>>=-some (tf_get_response usb) _ (received s w Err.ok) gets) ∙ rest in
            ground (arith, rest')
      ]

  -- `tf_cmd` accesses memory outside the reply in exactly one case: the handle is connected and its
  -- CRC test on, the request went out in full, and a reply of at least 8 bytes came in whose length
  -- field is below 4. On all other paths it returns.
  pub tf_cmd-IsShort :
      (req : List ℕ) (s : State W)
      → (tf_cmd usb req s ≡ none) ↔ (
          (s.tf.dev ≡ true)
          × ((w : W) × (usb.bulk_write s.world 0x01 req (sent_length req) s.tf.timeout
                ≡ (pos (sent_length req), w))
              × IsShort usb (received s w Err.ok)))
  tf_cmd-IsShort req s =
      let sent = usb.bulk_write s.world 0x01 req (sent_length req) s.tf.timeout in
      (
        λ e. elim (Bool-cases s.tf.dev) [
          | inr closed ↦ absurd (not_sent req s (inl closed) e)
          | inl dev ↦ elim (Bool-cases (sent.0 ==ℤ pos (sent_length req))) [
            | inr short ↦ absurd (not_sent req s (inr short) e)
            | inl all ↦
                let takes : sent ≡ (pos (sent_length req), sent.1) =
                  ap (λ n. (n, sent.1)) ((==ℤ_iff _ _).0 all) in
                (dev, (sent.1, takes, command_past req s sent.1 dev takes e))
          ]
        ],
        λ (dev, (w, takes, short)). command_runs_past req s w dev takes short,
      )
