-- ===== src/Packet/Filename.antt =====
-- The field that `tf_req_putfilename` (tf_io.c) adds: a count, the name with its slashes turned, its
-- terminator and padding.
use native.Mathlib.Nat.{add-zero}
use libtopfield.Base.{
  ℕ, suc, ◌+◌, ◌%◌, ◌^◌, ◌<◌, ◌≤◌, ◌≡◌, refl, ap, sym, ◌∙◌, arith, List, [], ◌∷◌, ◌++◌, map, some,
  Bool, true, false, length, length-append, All, All-append, append_assoc, append-nil, ◌==◌,
  if◌then◌else◌,
}
use libtopfield.Base.Bits.{u8, u16, bit_and_mod}
use libtopfield.Bytes.{put_u16, c_string}
use libtopfield.Bytes.Arith.{IsByte, IsBytes}
use libtopfield.Bytes.Codec.{put_u16-IsBytes, length-put_u16}
use libtopfield.Packet.{
  TfPacket, tf_req_put8, tf_req_put16, put_name, backslash, tf_req_putfilename,
}
use libtopfield.Packet.Shape.{IsRequest, extended, store_fits, extended-IsRequest, extended-append}

-- A character of a C string's contents.
abbrev pub IsChar : ℕ → Type 0
IsChar c = (0 < c) × (c < 256)

abbrev wire_char : ℕ → ℕ
wire_char c = u8 (backslash c)

put_name_lem :
    (str : List ℕ) (p : TfPacket)
    → p.length + length str < 0x10000
    → put_name p str ≡ some (extended p (map wire_char str))
unfolding put_name tf_req_put8
put_name_lem [] p h = ap some (rw (add-zero, append-nil))
put_name_lem (c ∷ str) p h =
    let one : p.length + length (wire_char c ∷ []) < 0x10000 = omega arith in
    rw (store_fits p (wire_char c ∷ []) one) (
      put_name_lem str (extended p (wire_char c ∷ [])) (omega arith)
      ∙ ap some (extended-append p (wire_char c ∷ []) (map wire_char str)))

length-map : (f : ℕ → ℕ) (xs : List ℕ) → length (map f xs) ≡ length xs
length-map f [] = refl
length-map f (x ∷ xs) = ap suc (length-map f xs)

-- The count in front, if there is one, and the padding behind.
abbrev count_bytes : Bool → ℕ → List ℕ
count_bytes addlength n = if addlength then put_u16 (u16 n) else []

abbrev padding : Bool → List ℕ
padding odd = if odd then 0 ∷ [] else []

abbrev ends_odd : TfPacket → List ℕ → Bool
ends_odd p str = (length str + 1 + p.length) % 2 == 1

abbrev name_bytes : TfPacket → List ℕ → List ℕ
name_bytes p str = map wire_char (str ++ 0 ∷ []) ++ padding (ends_odd p str)

counted :
    (p : TfPacket) (addlength : Bool) (n : ℕ)
    → p.length + 2 < 0x10000
    → (if addlength then tf_req_put16 p n else some p) ≡ some (extended p (count_bytes addlength n))
unfolding tf_req_put16
counted p true n h = store_fits p (put_u16 (u16 n)) (omega (arith, length-put_u16 (u16 n)))
counted p false n h = ap some (rw (add-zero, append-nil))

padded :
    (p : TfPacket) (odd : Bool)
    → p.length + 1 < 0x10000
    → (if odd then tf_req_put8 p 0 else some p) ≡ some (extended p (padding odd))
unfolding tf_req_put8
padded p true h = store_fits p (0 ∷ []) h
padded p false h = ap some (rw (add-zero, append-nil))

length-count_bytes : (addlength : Bool) (n : ℕ) → length (count_bytes addlength n) ≤ 2
length-count_bytes true n = omega (arith, length-put_u16 (u16 n))
length-count_bytes false n = omega arith

length-name : (str : List ℕ) → length (map wire_char (str ++ 0 ∷ [])) ≡ length str + 1
length-name str = length-map wire_char (str ++ 0 ∷ []) ∙ length-append str (0 ∷ [])

putfilename_bytes :
    (p : TfPacket) (str : List ℕ) (addlength : Bool)
    → p.length + length str + 4 < 0x10000
    → tf_req_putfilename p str addlength
      ≡ some (
          extended p (
            count_bytes addlength (length str + 1 + (if ends_odd p str then 1 else 0))
            ++ name_bytes p str))
unfolding tf_req_putfilename
putfilename_bytes p str addlength h =
    let n = length str + 1 + (if ends_odd p str then 1 else 0) in
    let q = extended p (count_bytes addlength n) in
    let named = map wire_char (str ++ 0 ∷ []) in
    rw (
      bit_and_mod 1 (length str + 1 + p.length),
      counted p addlength n (omega arith),
      put_name_lem (str ++ 0 ∷ []) q
          (omega (arith, length-append str (0 ∷ []), length-count_bytes addlength n)),
      padded (extended q named) (ends_odd p str)
          (omega (arith, length-name str, length-count_bytes addlength n)),
      extended-append q named (padding (ends_odd p str)),
      extended-append p (count_bytes addlength n) (name_bytes p str),
    )

wire_char-IsByte : (str : List ℕ) → IsBytes (map wire_char str)
wire_char-IsByte [] = tt
wire_char-IsByte (c ∷ str) = (omega arith, wire_char-IsByte str)

padding-IsBytes : (odd : Bool) → IsBytes (padding odd)
padding-IsBytes true = omega arith
padding-IsBytes false = tt

count_bytes-IsBytes : (addlength : Bool) (n : ℕ) → IsBytes (count_bytes addlength n)
count_bytes-IsBytes true n = put_u16-IsBytes (u16 n)
count_bytes-IsBytes false n = tt

c_string-name :
    (str rest : List ℕ)
    → All IsChar str
    → c_string (map wire_char (str ++ 0 ∷ []) ++ rest) ≡ map backslash str
unfolding c_string backslash
c_string-name [] rest h = refl
c_string-name (c ∷ str) rest h = ground (arith, c_string-name str rest h.1)

length-padding :
    (p : TfPacket) (str : List ℕ)
    → length (padding (ends_odd p str)) ≡ (length str + 1 + p.length) % 2
length-padding p str = ground arith

length-name_bytes :
    (p : TfPacket) (str : List ℕ)
    → length (name_bytes p str) ≡ length str + 1 + (if ends_odd p str then 1 else 0)
length-name_bytes p str = ground (
  arith,
  length-append (map wire_char (str ++ 0 ∷ [])) (padding (ends_odd p str)),
  length-name str,
)

even_end :
    (p : TfPacket) (str : List ℕ) (addlength : Bool) (n : ℕ)
    → (p.length + length (count_bytes addlength n ++ name_bytes p str)) % 2 ≡ 0
even_end p str true n = omega (
  arith,
  length-append (put_u16 (u16 n)) (name_bytes p str),
  length-put_u16 (u16 n),
  length-append (map wire_char (str ++ 0 ∷ [])) (padding (ends_odd p str)),
  length-name str,
  length-padding p str,
)
even_end p str false n = omega (
  arith,
  length-append (map wire_char (str ++ 0 ∷ [])) (padding (ends_odd p str)),
  length-name str,
  length-padding p str,
)

-- The count is that of the field, and fits 16 bits.
count_is :
    (p : TfPacket) (str : List ℕ) (addlength : Bool)
    → p.length + length str + 4 < 0x10000
    → count_bytes addlength (length str + 1 + (if ends_odd p str then 1 else 0))
      ≡ (if addlength then put_u16 (length (name_bytes p str)) else [])
count_is p str true h =
    let small : length (name_bytes p str) % 2 ^ 16 ≡ length (name_bytes p str) = omega (
      arith,
      length-append (map wire_char (str ++ 0 ∷ [])) (padding (ends_odd p str)),
      length-name str,
      length-padding p str,
    ) in
    ap put_u16 (ap u16 (sym (length-name_bytes p str)) ∙ small)
count_is p str false h = refl

field_grows :
    (p : TfPacket) (str : List ℕ) (addlength : Bool) (n : ℕ)
    → p.length + length (count_bytes addlength n ++ name_bytes p str) ≤ p.length + length str + 4
field_grows p str addlength n = omega (
  arith,
  length-append (count_bytes addlength n) (name_bytes p str),
  length-count_bytes addlength n,
  length-append (map wire_char (str ++ 0 ∷ [])) (padding (ends_odd p str)),
  length-name str,
  length-padding p str,
)

-- A filename leaves the command as it was.
pub putfilename_cmd :
    (p q : TfPacket) (str : List ℕ) (addlength : Bool)
    → p.length + length str + 4 < 0x10000
    → tf_req_putfilename p str addlength ≡ some q
    → q.cmd ≡ p.cmd
putfilename_cmd p q str addlength h e = let grown = putfilename_bytes p str addlength h in cc

-- What a filename adds to a request: a field that the optional count measures, that ends the
-- packet on an even length and that reads as the name with backslashes for slashes.
pub record HasName (p q : TfPacket) (str : List ℕ) (addlength : Bool) : Type 0 where
  pub field : List ℕ
  pub body_is : q.body ≡ p.body ++ (if addlength then put_u16 (length field) else []) ++ field
  pub even : q.length % 2 ≡ 0
  pub grown : q.length ≤ p.length + length str + 4
  pub reads : c_string field ≡ map backslash str
  pub request : IsRequest q

pub tf_req_putfilename_lem :
    (p : TfPacket) (str : List ℕ) (addlength : Bool)
    → IsRequest p
    → All IsChar str
    → p.length + length str + 4 < 0x10000
    → (q : TfPacket) × (tf_req_putfilename p str addlength ≡ some q) × HasName p q str addlength
tf_req_putfilename_lem p str addlength r chars h =
    let n = length str + 1 + (if ends_odd p str then 1 else 0) in
    let bytes = count_bytes addlength n ++ name_bytes p str in
    (
      extended p bytes,
      putfilename_bytes p str addlength h,
      record {
        field = name_bytes p str;
        body_is =
            ap (λ t. p.body ++ (t ++ name_bytes p str)) (count_is p str addlength h)
            ∙ sym (append_assoc p.body _ _);
        even = even_end p str addlength n;
        grown = field_grows p str addlength n;
        reads = c_string-name str (padding (ends_odd p str)) chars;
        request =
            extended-IsRequest p bytes r
              (All-append IsByte (count_bytes addlength n) (name_bytes p str)
                (count_bytes-IsBytes addlength n)
                (All-append IsByte (map wire_char (str ++ 0 ∷ [])) (padding (ends_odd p str))
                  (wire_char-IsByte (str ++ 0 ∷ [])) (padding-IsBytes (ends_odd p str))))
              (omega (arith, field_grows p str addlength n));
      },
    )
