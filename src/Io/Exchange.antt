-- ===== src/Io/Exchange.antt =====
-- `tf_cmd` (tf_io.c) over a device that takes the request and answers with a packet.
use libtopfield.Base.{
  ℕ, zero, suc, ◌-◌, ltb, ◌+◌, ◌≤◌, ◌⊎◌, ◌↔◌, ◌<◌, ◌^◌, ◌≡◌, refl, ap, sym, ◌∙◌, arith, List, ◌++◌,
  Option, some, true, length, ◌==◌, if◌then◌else◌,
}
use libtopfield.Base.Int.{ℤ, pos, negsuc}
use libtopfield.Bytes.{get_u32, get_u16_raw}
use libtopfield.Bytes.Arith.{IsBytes}
use libtopfield.Bytes.Codec.{get_u32-append}
use libtopfield.Packet.{TfPacket, tf_req_done, packet_size}
use libtopfield.Packet.Shape.{IsRequest}
use libtopfield.Handle.{State, Usb, >>=-some}
use libtopfield.Io.{tf_send, tf_get_response, tf_cmd, send_pad, neg_u32}
use libtopfield.Io.Answers.{received, tf_get_response-tf_req_done}
use libtopfield.Err
use libtopfield.Msg

-- The number of bytes that `tf_send` asks the device to take.
abbrev pub sent_length : List ℕ → ℕ
sent_length req = get_u16_raw req + send_pad (get_u16_raw req)

-- A device that takes all of a request.
pub sent_ok :
    {W : Type 0} (usb : Usb W) (s : State W) (req : List ℕ) (w : W)
    → s.tf.dev ≡ true
    → usb.bulk_write s.world 0x01 req (sent_length req) s.tf.timeout ≡ (pos (sent_length req), w)
    → tf_send usb req s ≡ some (Err.ok, received s w Err.ok)
unfolding tf_send
sent_ok usb s req w dev takes = ground (arith, dev, takes)

-- A connected device that takes all of `req` and then sends the packet `p` and `junk`.
pub record Exchanges {W : Type 0} (usb : Usb W) (s : State W) (req : List ℕ) (p : TfPacket)
    (w1 w2 : W) : Type 0 where
  pub connected : s.tf.dev ≡ true
  pub takes :
      usb.bulk_write s.world 0x01 req (sent_length req) s.tf.timeout ≡ (pos (sent_length req), w1)
  pub request : IsRequest p
  pub junk : List ℕ
  pub junk_bytes : IsBytes junk
  pub sends :
      usb.bulk_read w1 0x82 packet_size s.tf.timeout
      ≡ (pos (length (tf_req_done p ++ junk)), tf_req_done p ++ junk, w2)

-- A number with its sign turned, as an `int` of 32 bits: -r, and 2 ^ 32 - r where that is less than
-- the least `int`.
abbrev pub negated : ℕ → ℤ
negated zero = pos 0
negated (suc r) = if ltb r (2 ^ 31) then negsuc r else pos (2 ^ 32 - suc r)

neg_u32-negated : (r : ℕ) → r < 2 ^ 32 → neg_u32 r ≡ negated r
unfolding neg_u32
neg_u32-negated zero h = refl
neg_u32-negated (suc r) h = ground arith

get_u32-lt : (b : List ℕ) → get_u32 b < 2 ^ 32
unfolding get_u32
get_u32-lt b = omega arith

-- What the command makes of the answer.
abbrev pub answer : TfPacket → ℤ
answer p =
    if get_u32 p.cmd == Msg.fail
    then negated (get_u32 p.body)
    else if get_u32 p.cmd == Msg.success
    then Err.ok
    else Err.unexpected

module _ {W : Type 0} (usb : Usb W) (s : State W) (req : List ℕ) (p : TfPacket) (w1 w2 : W)
    (x : Exchanges usb s req p w1 w2) where
  sent_all : tf_send usb req s ≡ some (Err.ok, received s w1 Err.ok)
  sent_all = sent_ok usb s req w1 x.connected x.takes

  -- A device that is connected, takes all of the request and answers with a packet of any command
  -- and body, junk behind it: `tf_cmd` returns and stores what the packet says, 0 for SUCCESS, the
  -- negated 32-bit reason for FAIL and -100 for any other command. Condition: a FAIL has its reason.
  pub tf_cmd_answered :
      (get_u32 p.cmd ≡ Msg.fail → 4 ≤ length p.body)
      → tf_cmd usb req s ≡ some (answer p, received s w2 (answer p))
  unfolding tf_cmd
  tf_cmd_answered coded =
      let (reply, gets, carried) =
        tf_get_response-tf_req_done usb (received s w1 Err.ok) p x.junk w2 x.request x.junk_bytes
          x.connected x.sends in
      let code : get_u32 p.cmd ≡ Msg.fail → get_u32 reply.body ≡ get_u32 p.body =
        λ e. ap get_u32 carried.body_is ∙ get_u32-append p.body carried.behind (coded e) in
      let turned = neg_u32-negated (get_u32 p.body) (get_u32-lt p.body) in
      >>=-some (tf_send usb req) _ s sent_all
      ∙ >>=-some (tf_get_response usb) _ (received s w1 Err.ok) gets
      ∙ ground (arith, carried.cmd_is, code, turned)

same_code :
    {W : Type 0} {a b : ℤ} {s t : State W}
    → ◌≡◌ {A = Option (ℤ × State W)} (some (a, s)) (some (b, t))
    → a ≡ b
same_code h = cc

answer-ok :
    (p : TfPacket)
    → (answer p ≡ Err.ok)
      ↔ ((get_u32 p.cmd ≡ Msg.success) ⊎ ((get_u32 p.cmd ≡ Msg.fail) × (get_u32 p.body ≡ 0)))
answer-ok p = let h = get_u32-lt p.body in ground (arith, h)

-- A command whose device takes the request and answers returns 0 for exactly two answers: SUCCESS,
-- and FAIL with reason 0. Condition: a FAIL has its reason.
pub tf_cmd-ok :
    {W : Type 0} (usb : Usb W) (s : State W) (req : List ℕ) (p : TfPacket) (w1 w2 : W)
    → Exchanges usb s req p w1 w2
    → (get_u32 p.cmd ≡ Msg.fail → 4 ≤ length p.body)
    → ((t : State W) × (tf_cmd usb req s ≡ some (Err.ok, t)))
      ↔ ((get_u32 p.cmd ≡ Msg.success) ⊎ ((get_u32 p.cmd ≡ Msg.fail) × (get_u32 p.body ≡ 0)))
tf_cmd-ok usb s req p w1 w2 x coded =
    let run = tf_cmd_answered usb s req p w1 w2 x coded in
    (
      λ (t, e). (answer-ok p).0 (same_code (sym run ∙ e)),
      λ h. (received s w2 Err.ok, run ∙ ap (λ c. some (c, received s w2 c)) ((answer-ok p).1 h)),
    )
