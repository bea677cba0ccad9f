-- ===== src/Dirent.antt =====
-- tf_io.c, lines 68 to 81 and 505 to 514, and `tf_dirent` of tf_io.h: a file's descriptor on the
-- wire and the directory entry that is made of it.
--
-- The 114 bytes of a `tf_typefile_t`: 5 of the time stamp, the file type, 8 of the size, 95 of the
-- name, one unused and 4 of the attributes.
pub mod Stored
pub mod Wire
use libtopfield.Base.{
  ℕ, ◌+◌, ◌-◌, List, [], ◌∷◌, ◌++◌, Option, none, some, length, take, drop, ltb, ◌==◌,
  if◌then◌else◌,
}
use libtopfield.Base.Int.{ℤ}
use libtopfield.Bytes.{at, get_u16, get_u64, put_u64, c_string}
use libtopfield.Mjd.{TfDatetime, TimeZone, tfdt_to_time, time_to_tfdt}
use mathlib.Core.List.{reverse}

abbrev pub type_dir : ℕ
type_dir = 1

abbrev pub type_file : ℕ
type_file = 2

abbrev pub typefile_size : ℕ
typefile_size = 114

abbrev pub name_size : ℕ
name_size = 95

-- `type` is the character 'd' or 'f'.
pub record TfDirent : Type 0 where
  pub stamp : ℤ
  pub type : ℕ
  pub size : ℕ
  pub name : List ℕ
  pub attrib : ℕ

-- The time stamp at the start of a descriptor.
unfoldable pub stamp_at : List ℕ → TfDatetime
stamp_at typefile = record {
  mjd = typefile;
  hour = at typefile 2;
  minute = at typefile 3;
  second = at typefile 4;
}

-- `none` is a name that `strcpy` would write past the end of `d->name`: with its terminator it has
-- more than 95 bytes. The copy reads on behind the field until it meets a zero byte.
unfoldable pub unpack_dirent : TimeZone → List ℕ → Option TfDirent
unpack_dirent zone typefile =
    let name = c_string (drop 14 typefile) in
    if ltb (length name) name_size
    then some (record {
      stamp = tfdt_to_time zone (stamp_at typefile);
      type = (if at typefile 5 == type_dir then b'd' else b'f');
      size = get_u64 (drop 6 typefile);
      name = name;
      attrib = get_u16 (drop 110 typefile);
    })
    else none

-- The descriptor that `tf_cmd_put` fills in, on a little-endian host, which stores the size with its
-- least significant byte first. `stale` is what the name field held before: `snprintf` writes at
-- most 94 characters and the terminator.
unfoldable pub pack_typefile : TimeZone → List ℕ → ℤ → ℕ → List ℕ → List ℕ
pack_typefile zone stale stamp size path =
    let dt = time_to_tfdt zone stamp in
    let name = take (name_size - 1) path in
    dt.mjd
    ++ (dt.hour ∷ dt.minute ∷ dt.second ∷ type_file ∷ [])
    ++ reverse (put_u64 size)
    ++ (name ++ 0 ∷ drop (length name + 1) (take name_size stale))
    ++ (0 ∷ 0 ∷ 0 ∷ 0 ∷ 0 ∷ [])
