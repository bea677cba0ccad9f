-- ===== src/Examples/Files.antt =====
-- Examples of directories, files and transfers over the devices of the examples.
use libtopfield.Base.{ℕ, suc, ◌+◌, ◌≡◌, refl, ap, arith, List, [], ◌∷◌, ◌++◌, length, take, zero}
use libtopfield.Base.Int.{pos, negsuc}
use libtopfield.Bytes.{put_u32, put_u64, get_u32}
use libtopfield.Packet.{TfPacket, tf_req_init, tf_req_done}
use libtopfield.Handle.{State}
use libtopfield.Transfer.{usb_bulk_write, usb_bulk_read}
use libtopfield.Transfer.Write.{Accepts, Delivers, usb_bulk_write-Delivers}
use libtopfield.Transfer.Read.{Brings, Retrieves, usb_bulk_read-Retrieves}
use libtopfield.Fw.{FwPacket, fw_req_done, fw_send}
use libtopfield.Fw.Wire.{wire_of}
use libtopfield.Handle.{Usb}
use libtopfield.Fw.Send.{Reports, Counts, Sends, fw_send-Sends}
use libtopfield.Put.Block.{HasBlock}
use libtopfield.Get.Next.{Fetches, tf_cmd_get_next-Fetches}
use libtopfield.Get.Stream.{Streams}
use libtopfield.Packet.Shape.{tf_req_init-IsRequest}
use libtopfield.Examples.Device.{sevens, device, opened, open_handle, kernel}
use libtopfield.Msg

accepts : Accepts kernel (λ w. w)
accepts = record {
  bounded = λ w ep bytes len timeout n e. ground (arith, e);
  logged = λ w ep bytes len timeout n e.
      let same : len ≡ n = ground (arith, e) in ap (λ m. w ++ take m bytes) same;
  failed = λ w ep bytes len timeout n e. cc;
}

usb_bulk_write-Delivers_example :
    Delivers
      (λ w. w)
      []
      (1 ∷ 2 ∷ 3 ∷ 4 ∷ 5 ∷ [])
      5
      (usb_bulk_write kernel 2 [] 0x81 (1 ∷ 2 ∷ 3 ∷ 4 ∷ 5 ∷ []) 5 11000)
usb_bulk_write-Delivers_example =
    usb_bulk_write-Delivers kernel 2 (λ w. w) accepts [] 0x81 (1 ∷ 2 ∷ 3 ∷ 4 ∷ 5 ∷ []) 5 11000

length-sevens : (n : ℕ) → length (sevens n) ≡ n
length-sevens zero = refl
length-sevens (suc n) = omega (arith, length-sevens n)

brings : Brings kernel (λ w. w)
brings = record {
  bounded = λ w ep len timeout n e. ground (arith, e);
  present = λ w ep len timeout n e. let count = length-sevens len in ground (arith, e, count);
  logged = λ w ep len timeout n e.
      let same : len ≡ n = ground (arith, e) in ap (λ m. w ++ take m (sevens len)) same;
  failed = λ w ep len timeout n e. cc;
}

usb_bulk_read-Retrieves_example : Retrieves (λ w. w) [] 5 (usb_bulk_read kernel 2 [] 0x82 5 11000)
usb_bulk_read-Retrieves_example = usb_bulk_read-Retrieves kernel 2 (λ w. w) brings [] 0x82 5 11000

-- A bus that keeps the bytes that went out, and their number with those behind a packet.
abbrev counting : Usb (List ℕ × ℕ)
counting = record {
  bulk_write = λ w endpoint bytes len timeout. (pos len, (w.0 ++ take len bytes, w.1 + len));
  bulk_read = λ w endpoint size timeout. (negsuc 0, [], w);
  sleep = λ w n. w;
}

carries : Reports counting (λ w. w.0)
carries w endpoint bytes len timeout e = refl

counts : Counts counting (λ w. w.1)
counts w endpoint bytes len timeout e = refl

abbrev firmware : FwPacket
firmware = record { seq = 1; cmd = 5; payload = 1 ∷ 2 ∷ 3 ∷ [] }

abbrev ready : State (List ℕ × ℕ)
ready = record { tf = open_handle; world = ([], 0) }

fw_send-Sends_example :
    Sends
      (λ w. w.0)
      (λ w. w.1)
      ready
      (wire_of 1 5 (1 ∷ 2 ∷ 3 ∷ []))
      (fw_send counting (fw_req_done firmware) ready)
fw_send-Sends_example =
    fw_send-Sends counting (λ w. w.0) (λ w. w.1) ready firmware carries counts refl (omega arith)

abbrev block : TfPacket
block = record {
  length = 19;
  cmd = put_u32 Msg.hdd_file_data;
  body = put_u64 4096 ++ 1 ∷ 2 ∷ 3 ∷ [];
}

block-HasBlock : HasBlock block 4096 (1 ∷ 2 ∷ 3 ∷ [])
unfolding tf_req_init put_u32 put_u64
block-HasBlock = record {
  request = record {
    sized = refl;
    fits = omega arith;
    cmd_sized = refl;
    cmd_bytes = omega arith;
    body_bytes = omega arith;
  };
  cmd_is = refl;
  length_is = refl;
  body_is = refl;
}

tf_cmd_get_next-Fetches_example :
    Fetches device (opened ((tf_req_done block ++ []) ∷ [])) 4096 (1 ∷ 2 ∷ 3 ∷ []) (pos 8)
tf_cmd_get_next-Fetches_example =
    tf_cmd_get_next-Fetches device (opened ((tf_req_done block ++ []) ∷ [])) block 4096
      (1 ∷ 2 ∷ 3 ∷ []) [] [] [] (pos 8) refl refl refl (omega arith) (omega arith) block-HasBlock tt
      refl refl

abbrev end_packet : TfPacket
end_packet = tf_req_init Msg.hdd_file_end

abbrev pub two_packets : List (List ℕ)
two_packets = (tf_req_done block ++ []) ∷ (tf_req_done end_packet ++ []) ∷ []

pub small_file : Streams device 11000 two_packets ((4096, 1 ∷ 2 ∷ 3 ∷ []) ∷ [])
small_file =
    Streams.sends _ _ _ block 4096 (1 ∷ 2 ∷ 3 ∷ []) [] [] (omega arith) (omega arith) block-HasBlock
      tt refl refl
      (Streams.ends _ _ _ end_packet [] (pos 8) (tf_req_init-IsRequest Msg.hdd_file_end)
        (unfold get_u32 tf_req_init put_u32 in refl) tt refl refl)
