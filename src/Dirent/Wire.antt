-- ===== src/Dirent/Wire.antt =====
-- A file's descriptor as the device sends it (tf_io.c), and the entry that `unpack_dirent` makes.
use libtopfield.Base.{
  ℕ, ◌+◌, ◌^◌, ◌<◌, ◌≡◌, refl, ap, sym, ◌∙◌, arith, true, List, [], ◌∷◌, ◌++◌, some, length, drop,
  All, ltb, ◌==◌, if◌then◌else◌, length-append, append_assoc, drop-append, drop-drop,
}
use libtopfield.Bytes.{at, put_u64, get_u64, get_u16, c_string}
use libtopfield.Bytes.Codec.{get_u64-put_u64}
use libtopfield.Packet.Filename.{IsChar}
use libtopfield.Dirent.{TfDirent, typefile_size, name_size, stamp_at, unpack_dirent}
use libtopfield.Mjd.{TimeZone, tfdt_to_time}

-- The fields of a descriptor. `behind` is what the name's field holds behind the terminator.
pub record Descriptor : Type 0 where
  pub mjd_high : ℕ
  pub mjd_low : ℕ
  pub hour : ℕ
  pub minute : ℕ
  pub second : ℕ
  pub filetype : ℕ
  pub size : ℕ
  pub name : List ℕ
  pub behind : List ℕ
  pub unused : ℕ
  pub attrib_0 : ℕ
  pub attrib_1 : ℕ
  pub attrib_2 : ℕ
  pub attrib_3 : ℕ

pub record IsDescriptor (f : Descriptor) : Type 0 where
  pub size_fits : f.size < 2 ^ 64
  pub name_chars : All IsChar f.name
  pub name_sized : length f.name + 1 + length f.behind ≡ name_size

abbrev descriptor_end : Descriptor → List ℕ
descriptor_end f = f.unused ∷ f.attrib_0 ∷ f.attrib_1 ∷ f.attrib_2 ∷ f.attrib_3 ∷ []

-- The 114 bytes.
unfoldable pub descriptor_bytes : Descriptor → List ℕ
descriptor_bytes f =
    f.mjd_high
    ∷ f.mjd_low
    ∷ f.hour
    ∷ f.minute
    ∷ f.second
    ∷ f.filetype
    ∷ (put_u64 f.size ++ ((f.name ++ 0 ∷ f.behind) ++ descriptor_end f))

-- The entry of a descriptor.
unfoldable pub entry_of : TimeZone → Descriptor → TfDirent
entry_of zone f = record {
  stamp = tfdt_to_time zone (record {
    mjd = f.mjd_high ∷ f.mjd_low ∷ [];
    hour = f.hour;
    minute = f.minute;
    second = f.second;
  });
  type = (if f.filetype == 1 then b'd' else b'f');
  size = f.size;
  name = f.name;
  attrib = get_u16 (f.attrib_0 ∷ f.attrib_1 ∷ []);
}

c_string-terminated : (name rest : List ℕ) → All IsChar name → c_string (name ++ 0 ∷ rest) ≡ name
unfolding c_string
c_string-terminated [] rest h = refl
c_string-terminated (c ∷ name) rest h = ground (arith, c_string-terminated name rest h.1)

module _ (f : Descriptor) (d : IsDescriptor f) (rest : List ℕ) where
  abbrev bytes : List ℕ
  bytes = descriptor_bytes f ++ rest

  abbrev field : List ℕ
  field = f.name ++ 0 ∷ f.behind

  from_name : drop 14 bytes ≡ field ++ (descriptor_end f ++ rest)
  unfolding descriptor_bytes put_u64
  from_name = append_assoc field (descriptor_end f) rest

  name_is : c_string (drop 14 bytes) ≡ f.name
  name_is =
      ap c_string (from_name ∙ append_assoc f.name (0 ∷ f.behind) (descriptor_end f ++ rest))
      ∙ c_string-terminated f.name (f.behind ++ (descriptor_end f ++ rest)) d.name_chars

  size_is : get_u64 (drop 6 bytes) ≡ f.size
  unfolding descriptor_bytes
  size_is =
      ap get_u64 (append_assoc (put_u64 f.size) (field ++ descriptor_end f) rest)
      ∙ get_u64-put_u64 f.size _ d.size_fits

  field_sized : length field ≡ 95
  field_sized = omega (arith, length-append f.name (0 ∷ f.behind), d.name_sized)

  attrib_is : get_u16 (drop 110 bytes) ≡ get_u16 (f.attrib_0 ∷ f.attrib_1 ∷ [])
  attrib_is =
      let end = descriptor_end f ++ rest in
      let behind_name : drop 95 (field ++ end) ≡ end = drop-append 95 field end (sym field_sized) in
      ap get_u16 (
        sym (drop-drop 96 14 bytes)
        ∙ ap (drop 96) from_name
        ∙ sym (drop-drop 1 95 (field ++ end))
        ∙ ap (drop 1) behind_name)
      ∙ (unfold get_u16 in refl)

  stamp_is : (zone : TimeZone) → tfdt_to_time zone (stamp_at bytes) ≡ (entry_of zone f).stamp
  unfolding stamp_at tfdt_to_time descriptor_bytes entry_of get_u16
  stamp_is zone = refl

  type_is : at bytes 5 ≡ f.filetype
  unfolding descriptor_bytes
  type_is = refl

  pub length-descriptor_bytes : length (descriptor_bytes f) ≡ typefile_size
  unfolding descriptor_bytes put_u64
  length-descriptor_bytes = omega (arith, length-append field (descriptor_end f), field_sized)

  -- `unpack_dirent` makes the entry, whatever stands behind the descriptor.
  pub unpack_dirent-descriptor_bytes :
      (zone : TimeZone) → unpack_dirent zone (descriptor_bytes f ++ rest) ≡ some (entry_of zone f)
  unfolding unpack_dirent
  unpack_dirent-descriptor_bytes zone =
      let short : ltb (length f.name) name_size ≡ true = ground (arith, d.name_sized) in
      rw (name_is, short, stamp_is zone, type_is, size_is, attrib_is) (unfold entry_of in refl)

  pub next_descriptor : drop typefile_size (descriptor_bytes f ++ rest) ≡ rest
  next_descriptor =
      drop-append typefile_size (descriptor_bytes f) rest (sym length-descriptor_bytes)
