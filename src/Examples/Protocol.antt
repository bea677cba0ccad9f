-- ===== src/Examples/Protocol.antt =====
-- Examples of packets and commands over the device that answers from a list.
use libtopfield.Base.{
  ℕ, ◌≤◌, ◌≡◌, ◌⊎◌, ◌↔◌, refl, arith, List, [], ◌∷◌, ◌++◌, some, length, replicate, none, true,
}
use libtopfield.Base.Int.{pos}
use libtopfield.Bytes.{put_u32, get_u32, get_u16_raw}
use libtopfield.Packet.{TfPacket, tf_req_init, tf_req_done}
use libtopfield.Packet.Shape.{tf_req_init-IsRequest}
use libtopfield.Handle.{State}
use libtopfield.Io.{Reply, tf_cmd, tf_get_response}
use libtopfield.Io.Answers.{Carries, received, tf_get_response-tf_req_done}
use libtopfield.Io.Exchange.{sent_length, Exchanges, tf_cmd_answered, tf_cmd-ok}
use libtopfield.Io.Faults.{IsShort, tf_cmd-IsShort}
use libtopfield.Io.Errors.{Stores, tf_cmd-Stores}
use libtopfield.Examples.Device.{device, opened}
use libtopfield.Msg
use libtopfield.Err

abbrev World : Type 0
World = List (List ℕ)

abbrev success : TfPacket
success = tf_req_init Msg.success

abbrev ready : List ℕ
ready = tf_req_done (tf_req_init Msg.ready)

abbrev before : State World
before = opened ((tf_req_done success ++ []) ∷ [])

exchange : Exchanges device before ready success ((tf_req_done success ++ []) ∷ []) []
exchange = record {
  connected = refl;
  takes = refl;
  request = tf_req_init-IsRequest Msg.success;
  junk = [];
  junk_bytes = tt;
  sends = refl;
}

coded : get_u32 success.cmd ≡ Msg.fail → 4 ≤ length success.body
unfolding tf_req_init get_u32 put_u32
coded h = absurd (omega (arith, h))

tf_cmd_answered_example : tf_cmd device ready before ≡ some (Err.ok, received before [] Err.ok)
unfolding tf_req_init get_u32 put_u32
tf_cmd_answered_example =
    tf_cmd_answered device before ready success ((tf_req_done success ++ []) ∷ []) [] exchange coded

tf_cmd-ok_example : ((t : State World) × (tf_cmd device ready before ≡ some (Err.ok, t))) ↔ (
    (get_u32 success.cmd ≡ Msg.success)
    ⊎ ((get_u32 success.cmd ≡ Msg.fail) × (get_u32 success.body ≡ 0)))
tf_cmd-ok_example =
    tf_cmd-ok device before ready success ((tf_req_done success ++ []) ∷ []) [] exchange coded

tf_get_response-tf_req_done_example :
    (reply : Reply) × (tf_get_response device before
      ≡ some ((Err.ok, reply), received before [] Err.ok))
    × Carries success reply
tf_get_response-tf_req_done_example =
    tf_get_response-tf_req_done device before success [] [] (tf_req_init-IsRequest Msg.success) tt
      refl refl

tf_cmd-Stores_example : Stores before (received before [] Err.ok) Err.ok
unfolding tf_req_init get_u32 put_u32
tf_cmd-Stores_example = tf_cmd-Stores device ready before (received before [] Err.ok) Err.ok (
    tf_cmd_answered device before ready success ((tf_req_done success ++ []) ∷ []) [] exchange
      coded)

-- An answer of ten bytes whose length field says 2.
abbrev short_answer : List ℕ
short_answer = 2 ∷ replicate 9 0

abbrev to_short : State World
to_short = opened (short_answer ∷ [])

tf_cmd-IsShort_example : (tf_cmd device ready to_short ≡ none) ↔ (
    (to_short.tf.dev ≡ true)
    × ((w : World) × (device.bulk_write to_short.world 0x01 ready
            (sent_length ready)
            to_short.tf.timeout
          ≡ (pos (sent_length ready), w))
        × IsShort device (received to_short w Err.ok)))
tf_cmd-IsShort_example = tf_cmd-IsShort device ready to_short

runs_past : tf_cmd device ready to_short ≡ none
unfolding get_u16_raw
runs_past = (tf_cmd-IsShort device ready to_short).1 (
  refl,
  (_, refl, record { connected = refl; tested = refl; whole = omega arith; short = omega arith }),
)
