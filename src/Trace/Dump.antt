-- ===== src/Trace/Dump.antt =====
-- The bytes in a trace of a packet (tf_io.c).
use libtopfield.Base.{
  ℕ, zero, suc, ◌+◌, ◌-◌, ◌*◌, ◌/◌, ◌%◌, ◌<◌, ◌≤◌, ◌≡◌, refl, ap, sym, ◌∙◌, arith, true, List, [],
  ◌∷◌, ◌++◌, length, take, drop, leb, ◌==◌, if◌then◌else◌, Bool-cases, inl, inr, min, append_assoc,
  drop-append,
}
use libtopfield.Bytes.{get_u16, put_u16}
use libtopfield.Bytes.Arith.{IsBytes}
use libtopfield.Bytes.Codec.{get_u16-put_u16}
use libtopfield.Packet.{TfPacket, header_bytes}
use libtopfield.Packet.Shape.{IsRequest}
use libtopfield.Trace.{
  hex_digit, hex_digits, padded_hex, dump_bytes, packet_line, traced, print_packet,
}

-- The value of a hexadecimal digit in small letters.
abbrev pub hex_value : ℕ → ℕ
hex_value c = if leb c b'9' then c - b'0' else c - b'a' + 10

-- The bytes that a dump shows: two digits behind each blank.
unfoldable pub read_dump : List ℕ → List ℕ
read_dump (c ∷ a ∷ b ∷ text) =
    let next_line = read_dump (a ∷ b ∷ text) in
    let byte = (hex_value a * 16 + hex_value b) ∷ read_dump text in
    if c == 10 then next_line else byte
read_dump (c ∷ a ∷ []) = []
read_dump (c ∷ []) = []
read_dump [] = []

two_digits :
    (b : ℕ) → b < 256 → padded_hex b'a' 2 b ≡ hex_digit b'a' (b / 16) ∷ hex_digit b'a' (b % 16) ∷ []
unfolding padded_hex hex_digits hex_digit
two_digits b small = elim (Bool-cases (b / 16 == 0)) [
  | inl one ↦ rw one (ground (arith, one))
  | inr two ↦
      let last : (b / 16 / 16 == 0) ≡ true = ground (arith, small) in
      rw (two, last) (ground (arith, small))
]

hex_value-hex_digit : (d : ℕ) → d < 16 → hex_value (hex_digit b'a' d) ≡ d
unfolding hex_digit
hex_value-hex_digit d small = ground arith

-- A byte that was written is read back, whatever follows.
read_byte :
    (b : ℕ) (text : List ℕ)
    → b < 256
    → read_dump ((32 ∷ padded_hex b'a' 2 b) ++ text) ≡ b ∷ read_dump text
unfolding read_dump
read_byte b text small =
    let high = hex_value-hex_digit (b / 16) (omega arith) in
    let low = hex_value-hex_digit (b % 16) (omega arith) in
    let same : b / 16 * 16 + b % 16 ≡ b = omega arith in
    rw (two_digits b small, high, low, same) refl

-- The same with the start of a new line before it.
read_row :
    (b : ℕ) (text : List ℕ)
    → b < 256
    → read_dump (10 ∷ ((32 ∷ padded_hex b'a' 2 b) ++ text)) ≡ b ∷ read_dump text
unfolding read_dump
read_row b text small =
    rw (two_digits b small) (rw (two_digits b small) at (read_byte b text small))

-- A dump ends with the end of its last line.
read_dump-dump_bytes :
    (i : ℕ) (bytes : List ℕ) → IsBytes bytes → read_dump (dump_bytes i bytes ++ 10 ∷ []) ≡ bytes
unfolding dump_bytes
read_dump-dump_bytes i [] h = unfold read_dump in refl
read_dump-dump_bytes i (b ∷ bytes) h =
    let later = read_dump-dump_bytes (i + 1) bytes h.1 in
    let rest = dump_bytes (i + 1) bytes in
    let regroup : ((32 ∷ padded_hex b'a' 2 b) ++ rest) ++ 10 ∷ []
        ≡ (32 ∷ padded_hex b'a' 2 b) ++ (rest ++ 10 ∷ []) =
      append_assoc (32 ∷ padded_hex b'a' 2 b) rest (10 ∷ []) in
    elim (Bool-cases (i % 32 == 0)) [
      | inl first ↦ rw first (
          ap (λ t. read_dump (10 ∷ t)) regroup
          ∙ read_row b (rest ++ 10 ∷ []) h.0
          ∙ ap (◌∷◌ b) later)
      | inr within ↦
          rw within (ap read_dump regroup ∙ read_byte b (rest ++ 10 ∷ []) h.0 ∙ ap (◌∷◌ b) later)
    ]

take_all : (n : ℕ) (xs : List ℕ) → length xs ≤ n → take n xs ≡ xs
take_all zero [] h = refl
take_all zero (x ∷ xs) h = absurd (omega arith)
take_all (suc n) [] h = refl
take_all (suc n) (x ∷ xs) h = ap (◌∷◌ x) (take_all n xs (omega arith))

IsBytes-take : (n : ℕ) (xs : List ℕ) → IsBytes xs → IsBytes (take n xs)
IsBytes-take zero xs h = tt
IsBytes-take (suc n) [] h = tt
IsBytes-take (suc n) (x ∷ xs) h = (h.0, IsBytes-take n xs h.1)

-- The data of a packet that a trace of this level shows.
abbrev pub shown_data : ℕ → List ℕ → List ℕ
shown_data trace_level body = if trace_level == 1 then take 64 body else body

take-min : (n : ℕ) (xs : List ℕ) → take (min n (length xs)) xs ≡ take n xs
take-min n xs = elim (Bool-cases (leb n (length xs))) [
  | inl less ↦ let e : min n (length xs) ≡ n = ground (arith, less) in ap (λ m. take m xs) e
  | inr more ↦
      let e : min n (length xs) ≡ length xs = ground (arith, more) in
      let all : length xs ≤ n = ground (arith, more) in
      ap (λ m. take m xs) e ∙ take_all (length xs) xs (omega arith) ∙ sym (take_all n xs all)
]

data_behind : (p : TfPacket) → IsRequest p → drop 8 (header_bytes p) ≡ p.body
unfolding header_bytes put_u16
data_behind p r = drop-append 4 p.cmd p.body (sym r.cmd_sized)

length_in : (p : TfPacket) → IsRequest p → get_u16 (header_bytes p) ≡ p.length
unfolding header_bytes
length_in p r = get_u16-put_u16 p.length _ (omega (arith, r.fits))

traced-header_bytes :
    (p : TfPacket) (trace_level : ℕ)
    → IsRequest p
    → traced trace_level (header_bytes p) ≡ shown_data trace_level p.body
unfolding traced
traced-header_bytes p trace_level r =
    let size : p.length - 8 ≡ length p.body = omega (arith, r.sized) in
    rw (length_in p r, size, data_behind p r)
      (elim (Bool-cases (trace_level == 1)) [
        | inl one ↦ rw one (take-min 64 p.body)
        | inr above ↦ rw above (take_all (min (length p.body) (length p.body)) p.body (omega arith))
      ])

-- A trace of a packet, before `tf_req_done` swaps it, is its line and a dump from which the bytes of
-- its data can be read: at trace level 1 the first 64 of them, at the levels above all. Conditions:
-- a file to write to, and a packet that the `tf_req_put...` calls can make.
pub print_packet-header_bytes :
    (p : TfPacket) (now trace_level : ℕ) (prefix : List ℕ)
    → IsRequest p
    → 0 < trace_level
    → (text : List ℕ) × (print_packet true now prefix trace_level (header_bytes p)
        ≡ packet_line now prefix (header_bytes p) ++ text)
      × (read_dump text ≡ shown_data trace_level p.body)
unfolding print_packet
print_packet-header_bytes p now trace_level prefix r some_level =
    let data_is = traced-header_bytes p trace_level r in
    let bytes : IsBytes (shown_data trace_level p.body) = elim (Bool-cases (trace_level == 1)) [
      | inl one ↦ rw one (IsBytes-take 64 p.body r.body_bytes)
      | inr above ↦ rw above r.body_bytes
    ] in
    (
      dump_bytes 0 (traced trace_level (header_bytes p)) ++ 10 ∷ [],
      ground (arith, some_level),
      ap (λ shown. read_dump (dump_bytes 0 shown ++ 10 ∷ [])) data_is
          ∙ read_dump-dump_bytes 0 (shown_data trace_level p.body) bytes,
    )
