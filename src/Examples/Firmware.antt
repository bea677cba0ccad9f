-- ===== src/Examples/Firmware.antt =====
-- A firmware upload of an image of eight bytes, which the device asks for in two pieces.
use libtopfield.Base.{ℕ, ◌+◌, ◌%◌, ◌≤◌, ◌<◌, ◌≡◌, inl, refl, arith, List, [], ◌∷◌, ◌++◌}
use libtopfield.Fw.{FwPacket, TfFwData, fw_req_init, fw_req_putdata, fw_pad, fw_id, fw_end}
use libtopfield.Fw.Wire.{wire_of, IsPadded}
use libtopfield.Fw.Device.{Takes, asking, asked, Asks, Greets}
use libtopfield.Fw.Session.{Installs, tf_fw_upload-Installs}
use libtopfield.Examples.Device.{device, opened}

abbrev image : List ℕ
image = 10 ∷ 11 ∷ 12 ∷ 13 ∷ 14 ∷ 15 ∷ 16 ∷ 17 ∷ []

abbrev id_packet : FwPacket
id_packet = record { seq = 0; cmd = fw_id; payload = [] }

abbrev end_packet : FwPacket
end_packet = record { seq = 2; cmd = fw_end; payload = [] }

abbrev first_request : FwPacket
first_request = asking 0 0 5 0 0 0

abbrev second_request : FwPacket
second_request = asking 1 0 3 0 0 5

abbrev sent : FwPacket → List ℕ
sent p = wire_of p.seq p.cmd p.payload ++ []

abbrev requests : List TfFwData
requests = asked 0 0 5 0 0 0 ∷ asked 1 0 3 0 0 5 ∷ []

padded :
    (len n : ℕ) → n % 2 ≡ 0 → (len ≤ n) × (n ≤ len + 1) × (0 < n) × (n < 0x200) → IsPadded len n
padded len n even (enough, few, some_bytes, small) = record {
  even = even;
  enough = enough;
  few = omega arith;
  size = inl (omega arith);
  needed = inl few;
}

greeting :
    Greets device 11000
      (sent id_packet ∷ sent first_request ∷ sent second_request ∷ sent end_packet ∷ [])
      (sent first_request ∷ sent second_request ∷ sent end_packet ∷ [])
unfolding fw_req_init fw_pad
greeting = record {
  between = sent id_packet ∷ sent first_request ∷ sent second_request ∷ sent end_packet ∷ [];
  takes = record {
    moved = 10;
    padded = padded 9 10 refl (omega arith);
    takes = Takes.last _ _ _ _ (omega arith) refl;
  };
  reply = id_packet;
  junk = [];
  is_id = refl;
  fits = omega arith;
  sends = refl;
}

asking_twice :
    Asks device 11000 image
      (sent first_request ∷ sent second_request ∷ sent end_packet ∷ [])
      requests
unfolding fw_req_init fw_req_putdata fw_pad
asking_twice =
    Asks.asks _ _ _ 0 0 5 0 0 0 [] _ (omega arith) (omega arith) refl
      (record {
        moved = 14;
        padded = padded 14 14 refl (omega arith);
        takes = Takes.last _ _ _ _ (omega arith) refl;
      })
      (Asks.asks _ _ _ 1 0 3 0 0 5 [] _ (omega arith) (omega arith) refl
        (record {
          moved = 12;
          padded = padded 12 12 refl (omega arith);
          takes = Takes.last _ _ _ _ (omega arith) refl;
        })
        (Asks.ends _ _ end_packet [] refl (omega arith) refl))

tf_fw_upload-Installs_example :
    Installs device image
      (opened (sent id_packet ∷ sent first_request ∷ sent second_request ∷ sent end_packet ∷ []))
      requests
tf_fw_upload-Installs_example =
    tf_fw_upload-Installs device
      (opened (sent id_packet ∷ sent first_request ∷ sent second_request ∷ sent end_packet ∷ []))
      image (sent first_request ∷ sent second_request ∷ sent end_packet ∷ []) requests refl greeting
      asking_twice
