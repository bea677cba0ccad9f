-- ===== src/Dirent/Stored.antt =====
-- A descriptor that `tf_cmd_put` fills in (tf_io.c), read back by `unpack_dirent`.
use libtopfield.Base.{
  ℕ, zero, suc, ◌+◌, ◌-◌, ◌/◌, ◌%◌, ◌^◌, ◌<◌, ◌≡◌, refl, ap, ◌∙◌, arith, List, [], ◌∷◌, ◌++◌, some,
  length, take, drop, All, length-take, length-drop, append_assoc,
}
use libtopfield.Base.Int.{ℤ}
use libtopfield.Bytes.{put_u64, get_u64, get_u16}
use libtopfield.Bytes.Arith.{IsBytes, get_u64_sum, put_u64_bytes, put_u16_bytes}
use libtopfield.Packet.Filename.{IsChar}
use libtopfield.Mjd.{TimeZone}
use libtopfield.Mjd.Stamps.{IsLocal, time_to_tfdt-IsLocal, tfdt_to_time-time_to_tfdt}
use libtopfield.Dirent.{name_size, unpack_dirent, pack_typefile}
use libtopfield.Dirent.Wire.{
  Descriptor, IsDescriptor, descriptor_bytes, entry_of, unpack_dirent-descriptor_bytes,
}
use mathlib.Core.List.{reverse}

put_u64-get_u64 :
    (a b c d e f g h : ℕ)
    → IsBytes (a ∷ b ∷ c ∷ d ∷ e ∷ f ∷ g ∷ h ∷ [])
    → put_u64 (get_u64 (a ∷ b ∷ c ∷ d ∷ e ∷ f ∷ g ∷ h ∷ [])) ≡ a ∷ b ∷ c ∷ d ∷ e ∷ f ∷ g ∷ h ∷ []
put_u64-get_u64 a b c d e f g h bytes =
    rw (get_u64_sum a b c d e f g h [] bytes) (put_u64_bytes _ ∙ ground arith)

get_u64_fits :
    (a b c d e f g h : ℕ)
    → IsBytes (a ∷ b ∷ c ∷ d ∷ e ∷ f ∷ g ∷ h ∷ [])
    → get_u64 (a ∷ b ∷ c ∷ d ∷ e ∷ f ∷ g ∷ h ∷ []) < 2 ^ 64
get_u64_fits a b c d e f g h bytes = omega (arith, get_u64_sum a b c d e f g h [] bytes)

-- The number whose eight bytes are those of `size` in the opposite order.
unfoldable pub other_order : ℕ → ℕ
other_order size = get_u64 (reverse (put_u64 size))

put_u64-other_order : (size : ℕ) → put_u64 (other_order size) ≡ reverse (put_u64 size)
unfolding other_order
put_u64-other_order size = rw (put_u64_bytes size) (put_u64-get_u64 _ _ _ _ _ _ _ _ (omega arith))

other_order_fits : (size : ℕ) → other_order size < 2 ^ 64
unfolding other_order
other_order_fits size = rw (put_u64_bytes size) (get_u64_fits _ _ _ _ _ _ _ _ (omega arith))

All-take : (n : ℕ) (xs : List ℕ) → All IsChar xs → All IsChar (take n xs)
All-take zero xs h = tt
All-take (suc n) [] h = tt
All-take (suc n) (x ∷ xs) h = (h.0, All-take n xs h.1)

module _ (zone : TimeZone) (stale : List ℕ) (stamp : ℤ) (size : ℕ) (path : List ℕ)
    (l : IsLocal zone stamp) (room : length stale ≡ name_size) (chars : All IsChar path) where
  abbrev kept : List ℕ
  kept = take (name_size - 1) path

  -- The fields that `tf_cmd_put` fills in.
  abbrev pub stored : Descriptor
  stored = record {
    mjd_high = l.mjd / 256 % 256;
    mjd_low = l.mjd % 256;
    hour = l.hour;
    minute = l.minute;
    second = l.second;
    filetype = 2;
    size = other_order size;
    name = kept;
    behind = drop (length kept + 1) (take name_size stale);
    unused = 0;
    attrib_0 = 0;
    attrib_1 = 0;
    attrib_2 = 0;
    attrib_3 = 0;
  }

  pub stored-IsDescriptor : IsDescriptor stored
  stored-IsDescriptor = record {
    size_fits = other_order_fits size;
    name_chars = All-take (name_size - 1) path chars;
    name_sized = omega (
      arith,
      room,
      length-take 94 path,
      length-take 95 stale,
      length-drop (length kept + 1) (take 95 stale),
    );
  }

  pub pack_typefile-stored : pack_typefile zone stale stamp size path ≡ descriptor_bytes stored
  unfolding pack_typefile descriptor_bytes
  pack_typefile-stored =
      rw (time_to_tfdt-IsLocal zone stamp l, put_u16_bytes l.mjd, put_u64-other_order size)
        (ap (λ rest. l.mjd / 256 % 256 ∷ l.mjd % 256 ∷ l.hour ∷ l.minute ∷ l.second ∷ 2 ∷ rest)
          (append_assoc (reverse (put_u64 size)) (kept ++ 0 ∷ stored.behind)
            (0 ∷ 0 ∷ 0 ∷ 0 ∷ 0 ∷ [])))

  stamp_kept : (entry_of zone stored).stamp ≡ stamp
  unfolding entry_of
  stamp_kept =
      rw (time_to_tfdt-IsLocal zone stamp l, put_u16_bytes l.mjd) at
        (tfdt_to_time-time_to_tfdt zone stamp l)

  -- The entry that a listing shows for a descriptor of `tf_cmd_put`: the same stamp, a file, the
  -- name up to its 94th character and no attributes, but the size with its eight bytes in the
  -- opposite order. Conditions: a stamp that `localtime` and `mktime` take there and back, a name
  -- field of 95 bytes, and a path of characters other than the terminator.
  pub unpack_dirent-pack_typefile :
      (rest : List ℕ)
      → unpack_dirent zone (pack_typefile zone stale stamp size path ++ rest)
        ≡ some (record {
          stamp = stamp;
          type = b'f';
          size = other_order size;
          name = take (name_size - 1) path;
          attrib = 0;
        })
  unfolding entry_of get_u16
  unpack_dirent-pack_typefile rest =
      ap (λ bytes. unpack_dirent zone (bytes ++ rest)) pack_typefile-stored
      ∙ unpack_dirent-descriptor_bytes stored stored-IsDescriptor rest zone
      ∙ (rw stamp_kept refl)
