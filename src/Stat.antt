-- ===== src/Stat.antt =====
-- tf_util.c, lines 29 to 94: `tf_stat`, which looks a path up in the listing of its parent.
--
-- The loop over the replies of a listing runs on fuel: a device may go on sending entries for ever.
-- `none` means that the fuel ran out or a fault in a call.
use libtopfield.Base.{
  ℕ, zero, suc, Bool, true, false, List, [], ◌∷◌, Option, none, some, ◌==◌, ◌&&◌, if◌then◌else◌,
}
pub mod Device
pub mod Found
pub mod Listing
use libtopfield.Base.Int.{ℤ, pos, negsuc, ◌==ℤ◌}
use libtopfield.Handle.{Usb, State, M, pure, fault, ◌>>=◌, ◌>>◌}
use libtopfield.Dirent.{TfDirent}
use libtopfield.Dir.{tf_cmd_dir_first, tf_cmd_dir_next, tf_cmd_dir_cancel}
use libtopfield.Mjd.{TimeZone}
use libtopfield.Path.{is_slash}

-- `strcmp(a, b) == 0`
unfoldable pub same_name : List ℕ → List ℕ → Bool
same_name [] [] = true
same_name [] (d ∷ ds) = false
same_name (c ∷ cs) [] = false
same_name (c ∷ cs) (d ∷ ds) = (c == d) && same_name cs ds

-- The path before its last slash and the name behind it; `none` without a slash.
unfoldable pub split_path : List ℕ → Option (List ℕ × List ℕ)
split_path [] = none
split_path (c ∷ path) =
    let later = split_path path in
    elim later [
      | some (parent, name) ↦ some (c ∷ parent, name)
      | none ↦ if is_slash c then some ([], path) else none
    ]

unfoldable pub parent_dir : List ℕ → List ℕ
parent_dir [] = b'/' ∷ []
parent_dir (c ∷ parent) = c ∷ parent

-- The first entry of that name.
unfoldable pub find_entry : List ℕ → List TfDirent → Option TfDirent
find_entry name [] = none
find_entry name (d ∷ entries) =
    let later = find_entry name entries in if same_name d.name name then some d else later

abbrev pub root_dirent : TfDirent
root_dirent = record { stamp = pos 0; type = b'd'; size = 0; name = b'/' ∷ []; attrib = 0 }

module _ {W : Type 0} (usb : Usb W) (zone : TimeZone) where
  -- The while loop, with the result of the last listing call in hand. A call that brings no entries
  -- leaves the old ones, but then its result ends the loop.
  unfoldable pub stat_rounds : ℕ → List ℕ → ℤ → Option (List TfDirent) → M W (ℤ × Option TfDirent)
  stat_rounds zero name ret entries s = none
  stat_rounds (suc fuel) name ret none s = some ((pos 1, none), s)
  stat_rounds (suc fuel) name ret (some entries) s =
      if ret ==ℤ pos 0
      then elim (find_entry name entries) [
        | some d ↦ (do cancelled ← tf_cmd_dir_cancel usb; pure (pos 0, some d)) s
        | none ↦ (do (next, more) ← tf_cmd_dir_next usb zone; stat_rounds fuel name next more) s
      ]
      else some ((pos 1, none), s)

  -- The result and what is stored into `*dirent`.
  unfoldable pub tf_stat : ℕ → List ℕ → M W (ℤ × Option TfDirent)
  tf_stat fuel path =
      if same_name path (b'/' ∷ [])
      then pure (pos 0, some root_dirent)
      else elim (split_path path) [
        | none ↦ pure (pos 1, none)
        | some (parent, name) ↦ (do
          (ret, entries) ← tf_cmd_dir_first usb zone (parent_dir parent)
          stat_rounds fuel name ret entries)
      ]
