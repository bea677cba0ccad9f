-- ===== src/Path.antt =====
-- tf_util.c, lines 96 to 189: `tf_makename`, an absolute path from a directory and a file name.
--
-- Strings are lists of characters without the terminator. The output buffer is kept with the last
-- character written first, so its head is `pt[-1]`; it is never empty, since it starts with a slash.
pub mod Runs
pub mod Spec
pub mod Buffer
pub mod Copy
pub mod Resolve
use libtopfield.Base.{
  ℕ, suc, Bool, true, false, not, List, [], ◌∷◌, Option, none, some, length, ltb, ◌==◌, ◌&&◌, ◌||◌,
  if◌then◌else◌,
}
use mathlib.Core.List.{reverse}

abbrev pub is_slash : ℕ → Bool
is_slash c = c == b'/'

-- `pt[-1] == '/'`
unfoldable pub after_slash : List ℕ → Bool
after_slash [] = false
after_slash (c ∷ out) = is_slash c

-- `strrchr(buf, '/') + 1`, the buffer cut behind its last slash.
unfoldable pub last_slash : List ℕ → List ℕ
last_slash [] = []
last_slash (c ∷ out) = if is_slash c then c ∷ out else last_slash out

-- Back up a directory.
unfoldable pub back_up : List ℕ → List ℕ
back_up [] = []
back_up (c ∷ []) = c ∷ []
back_up (c ∷ d ∷ out) = last_slash (d ∷ out)

-- `dir[0] == '.' && dir[1] == '.'` and then `dir[2] == '/' || dir[2] == 0`
unfoldable pub parent_here : List ℕ → Bool
parent_here [] = false
parent_here (c ∷ []) = false
parent_here (c ∷ d ∷ []) = (c == b'.') && (d == b'.')
parent_here (c ∷ d ∷ e ∷ path) = (c == b'.') && (d == b'.') && is_slash e

-- The copying loop, for the directory and for the file name. Behind `..` it skips the slash, if
-- there is one.
unfoldable pub copy_path : List ℕ → List ℕ → List ℕ
copy_path [] out = out
copy_path (c ∷ []) out = c ∷ out
copy_path (c ∷ d ∷ []) out =
    if after_slash out && parent_here (c ∷ d ∷ []) then back_up out else d ∷ c ∷ out
copy_path (c ∷ d ∷ e ∷ path) out = elim (after_slash out && parent_here (c ∷ d ∷ e ∷ path)) [
  | true ↦ copy_path path (back_up out)
  | false ↦ copy_path (d ∷ e ∷ path) (c ∷ out)
]

unfoldable pub skip_slash : List ℕ → List ℕ
skip_slash [] = []
skip_slash (c ∷ path) = if is_slash c then path else c ∷ path

-- A trailing slash goes, unless it is all there is.
unfoldable pub trim_slash : List ℕ → List ℕ
trim_slash [] = []
trim_slash (c ∷ []) = c ∷ []
trim_slash (c ∷ d ∷ out) = if is_slash c then d ∷ out else c ∷ d ∷ out

unfoldable pub add_slash : List ℕ → List ℕ
add_slash out = if after_slash out then out else b'/' ∷ out

unfoldable pub starts_with_slash : List ℕ → Bool
starts_with_slash [] = false
starts_with_slash (c ∷ path) = is_slash c

-- The name is made in two parts; `none` is a null file name.
unfoldable pub make_parts : List ℕ → Option (List ℕ) → List ℕ
unfolding copy_path parent_here skip_slash add_slash trim_slash after_slash back_up last_slash
make_parts dir none = trim_slash (copy_path (skip_slash dir) (b'/' ∷ []))
make_parts dir (some filename) =
    trim_slash
      (copy_path (skip_slash filename) (add_slash (copy_path (skip_slash dir) (b'/' ∷ []))))

-- A file name that starts with a slash takes the directory's place.
unfoldable pub replaces_dir : List ℕ → Option (List ℕ) → List ℕ
unfolding make_parts starts_with_slash
replaces_dir dir none = make_parts dir none
replaces_dir dir (some filename) =
    if starts_with_slash filename then make_parts filename none else make_parts dir (some filename)

unfoldable pub tf_makename : List ℕ → Option (List ℕ) → List ℕ
unfolding replaces_dir
tf_makename dir filename = reverse (replaces_dir dir filename)
