-- ===== src/Fw/Send.antt =====
-- What the bootloader's `tf_send` puts on the bus (tf_fwio.c).
use libtopfield.Base.{
  ℕ, zero, suc, ◌+◌, ◌-◌, ◌%◌, ◌<◌, ◌≤◌, ◌≡◌, ◌≢◌, ◌⊎◌, refl, ap, sym, ◌∙◌, arith, true, List, [],
  ◌∷◌, ◌++◌, append_assoc, Option, some, length, take, drop, ◌==◌, min, inl, inr, Bool-cases,
}
use libtopfield.Base.Int.{ℤ, pos, negsuc, ◌==ℤ◌, ==ℤ_iff}
use libtopfield.Bytes.{get_u16, put_u16}
use libtopfield.Bytes.Codec.{get_u16-put_u16}
use libtopfield.Handle.{Usb, State}
use libtopfield.Transfer.Write.{take-take-drop}
use libtopfield.Fw.Wire.{wire_of, fw_req_done-wire_of, length-wire_of, IsPadded, fw_pad-IsPadded}
use libtopfield.Fw.{
  max_data_size, max_send_size, fw_pad, send_rounds, fw_send, calc_checksum, summed_bytes, FwPacket,
  fw_req_done,
}

-- A transfer is even, at most three bytes longer than its packet, and no multiple of 512 bytes unless it is exactly
-- the largest one that the bootloader takes at a time.
pub fw_pad_lem :
    (len : ℕ)
    → ((len + fw_pad len) % 2 ≡ 0)
      × (fw_pad len ≤ 3)
      × (((len + fw_pad len) % 0x200 ≢ 0) ⊎ (len + fw_pad len ≡ max_send_size))
unfolding fw_pad
fw_pad_lem len = ground arith

-- What the bus promises of a transfer that reports all its bytes: they are behind the ones that
-- went out before, and counted. `log w` are the bytes from packets that went out, and `count w` is
-- the number of all that did, with those behind the end of a packet.
abbrev pub Reports : {W : Type 0} → Usb W → (W → List ℕ) → Type 0
Reports {W} usb log =
    (w : W) (endpoint : ℕ) (bytes : List ℕ) (len timeout : ℕ)
    → (usb.bulk_write w endpoint bytes len timeout).0 ≡ pos len
    → log (usb.bulk_write w endpoint bytes len timeout).1 ≡ log w ++ take len bytes

abbrev pub Counts : {W : Type 0} → Usb W → (W → ℕ) → Type 0
Counts {W} usb count =
    (w : W) (endpoint : ℕ) (bytes : List ℕ) (len timeout : ℕ)
    → (usb.bulk_write w endpoint bytes len timeout).0 ≡ pos len
    → count (usb.bulk_write w endpoint bytes len timeout).1 ≡ count w + len

-- How the rounds of a transfer end: with 0 after all its bytes, or with -1; the handle keeps the code.
record Moves {W : Type 0} (log : W → List ℕ) (count : W → ℕ) (s : State W) (bytes : List ℕ)
    (len : ℕ) (r : Option (ℤ × State W)) : Type 0 where
  pub ret : ℤ
  pub after : State W
  pub returns : r ≡ some (ret, after)
  pub stored : after.tf.error ≡ ret
  pub outcome :
      ((ret ≡ pos 0)
        × (log after.world ≡ log s.world ++ take len bytes)
        × (count after.world ≡ count s.world + len))
      ⊎ (ret ≡ negsuc 0)

-- The same of a packet with its padding.
pub record Sends {W : Type 0} (log : W → List ℕ) (count : W → ℕ) (s : State W) (packet : List ℕ)
    (r : Option (ℤ × State W)) : Type 0 where
  pub ret : ℤ
  pub after : State W
  pub returns : r ≡ some (ret, after)
  pub stored : after.tf.error ≡ ret
  pub outcome :
      ((ret ≡ pos 0)
        × (log after.world ≡ log s.world ++ packet)
        × ((n : ℕ) × IsPadded (length packet) n × (count after.world ≡ count s.world + n)))
      ⊎ (ret ≡ negsuc 0)

take_whole : (n : ℕ) (xs : List ℕ) → length xs ≤ n → take n xs ≡ xs
take_whole zero [] h = refl
take_whole zero (x ∷ xs) h = absurd (omega arith)
take_whole (suc n) [] h = refl
take_whole (suc n) (x ∷ xs) h = ap (◌∷◌ x) (take_whole n xs (omega arith))

module _ {W : Type 0} (usb : Usb W) (log : W → List ℕ) (count : W → ℕ) (k : Reports usb log)
    (c : Counts usb count) where
  -- The first bytes and the rest of them.
  joined :
      (end middle start bytes : List ℕ) (n len : ℕ)
      → n ≤ len
      → middle ≡ start ++ take n bytes
      → end ≡ middle ++ take (len - n) (drop n bytes)
      → end ≡ start ++ take len bytes
  joined end middle start bytes n len small e rest =
      let sum : n + (len - n) ≡ len = omega (arith, small) in
      rest
      ∙ ap (◌++ take (len - n) (drop n bytes)) e
      ∙ append_assoc start (take n bytes) (take (len - n) (drop n bytes))
      ∙ ap (start ++◌) (take-take-drop n (len - n) bytes ∙ ap (λ m. take m bytes) sum)

  send_rounds-Moves :
      (fuel : ℕ) (bytes : List ℕ) (len : ℕ) (s : State W)
      → len < fuel
      → s.tf.error ≡ pos 0
      → Moves log count s bytes len (send_rounds usb fuel bytes len s)
  unfolding send_rounds
  send_rounds-Moves zero bytes len s h e = ground arith
  send_rounds-Moves (suc fuel) bytes len s h e =
      let tosend = min len max_send_size in
      let r = usb.bulk_write s.world 0x01 bytes tosend s.tf.timeout in
      let s' : State W = record s { world = r.1 } in
      elim (Bool-cases (r.0 ==ℤ pos tosend)) [
        | inr short ↦ record {
          ret = negsuc 0;
          after = record s' { tf = record (s.tf) { error = negsuc 0 } };
          returns = rw (short, send_rounds) refl;
          stored = refl;
          outcome = inr refl;
        }
        | inl all ↦
            let logs = k s.world 0x01 bytes tosend s.tf.timeout ((==ℤ_iff _ _).0 all) in
            let counted = c s.world 0x01 bytes tosend s.tf.timeout ((==ℤ_iff _ _).0 all) in
            elim (Bool-cases (len - tosend == 0)) [
              | inl done ↦ record {
                ret = s.tf.error;
                after = s';
                returns = rw (all, done, send_rounds) refl;
                stored = refl;
                outcome =
                    let same : tosend ≡ len = ground (arith, done) in
                    inl (
                      e,
                      logs ∙ ap (λ n. log s.world ++ take n bytes) same,
                      counted ∙ ap (λ n. count s.world + n) same,
                    );
              }
              | inr more ↦
                  let smaller : len - tosend < fuel = ground (arith, h, more) in
                  let rest =
                    send_rounds-Moves fuel (drop tosend bytes) (len - tosend) s' smaller e in
                  record {
                    ret = rest.ret;
                    after = rest.after;
                    returns = rw (all, more, send_rounds) rest.returns;
                    stored = rest.stored;
                    outcome = elim rest.outcome [
                      | inr failed ↦ inr failed
                      | inl (ok, bytes_out, moved) ↦ inl (
                        ok,
                        joined (log rest.after.world) (log (r.1)) (log s.world) bytes tosend len
                            (omega arith) logs bytes_out,
                        omega (arith, moved, counted),
                      )
                    ];
                  }
            ]
      ]

-- The length that `tf_send` reads out of the finished packet.
pub length_field :
    (req : FwPacket)
    → length req.payload ≤ max_data_size
    → get_u16 (drop 6 (fw_req_done req)) ≡ length req.payload
unfolding fw_req_done summed_bytes
length_field req fits =
    ap get_u16 (
      append_assoc (put_u16 (length req.payload)) req.payload
        (calc_checksum (summed_bytes req) ∷ []))
    ∙ get_u16-put_u16 (length req.payload) _ (omega (arith, fits))

-- The bootloader's `tf_send` ends for every packet of at most 0x8000 bytes of data, whatever the bus
-- answers. Its result is stored in the handle. It is 0 or -1, and with 0 all of the packet went out,
-- letters, fields, data and checksum, in order and each byte once, and with its padding an even
-- number of bytes, at most three more than the packet has and no multiple of 512 but 0x4000.
-- Conditions: a connected handle, and a bus that reports a transfer as complete only if it is.
pub fw_send-Sends :
    {W : Type 0} (usb : Usb W) (log : W → List ℕ) (count : W → ℕ) (s : State W) (req : FwPacket)
    → Reports usb log
    → Counts usb count
    → s.tf.dev ≡ true
    → length req.payload ≤ max_data_size
    → Sends log count s (wire_of req.seq req.cmd req.payload) (fw_send usb (fw_req_done req) s)
unfolding fw_send
fw_send-Sends usb log count s req k c dev fits =
    let len = 8 + length req.payload + 1 in
    let packet = wire_of req.seq req.cmd req.payload in
    let size = length-wire_of req.seq req.cmd req.payload in
    let run =
      send_rounds-Moves usb log count k c (len + fw_pad len + 1) (fw_req_done req)
        (len + fw_pad len) (record s { tf = record (s.tf) { error = pos 0 } }) (omega arith) refl in
    let first : fw_send usb (fw_req_done req) s
        ≡ send_rounds usb (len + fw_pad len + 1) (fw_req_done req) (len + fw_pad len)
            (record s { tf = record (s.tf) { error = pos 0 } }) =
      rw (length_field req fits, dev, fw_send) refl in
    let same : len ≡ length packet = omega (arith, size) in
    let whole : take (len + fw_pad len) (fw_req_done req) ≡ packet =
      ap (take (len + fw_pad len)) (fw_req_done-wire_of req)
      ∙ take_whole (len + fw_pad len) packet (omega (arith, size)) in
    let padded : IsPadded (length packet) (len + fw_pad len) =
      rw (sym same) (fw_pad-IsPadded len) in
    record {
      ret = run.ret;
      after = run.after;
      returns = first ∙ run.returns;
      stored = run.stored;
      outcome = elim run.outcome [
        | inr failed ↦ inr failed
        | inl (ok, bytes_out, moved) ↦
            inl (ok, bytes_out ∙ ap (log s.world ++◌) whole, (len + fw_pad len, padded, moved))
      ];
    }
