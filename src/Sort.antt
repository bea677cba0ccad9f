-- ===== src/Sort.antt =====
-- tf_util.c, lines 191 to 312: the orders of directory entries and `tf_sort_dirents`.
--
-- libc's `qsort` is a parameter. A time stamp is a 64-bit number, and the difference of two of them
-- goes into an `int`, the low 32 bits of it.
pub mod Order
pub mod Sorted
use libtopfield.Base.{ℕ, ◌+◌, ◌-◌, Bool, true, false, List, [], ◌∷◌, ltb, ◌==◌, ◌&&◌, if◌then◌else◌}
use libtopfield.Base.Int.{ℤ, pos, negsuc, ◌-ℤ◌, ◌==ℤ◌, signed32, pattern32}
use libtopfield.Dirent.{TfDirent}

-- TF_SORT_NAME, TF_SORT_SIZE and TF_SORT_TIME
abbrev pub sort_name : ℤ
sort_name = pos 1

abbrev pub sort_size : ℤ
sort_size = pos 2

abbrev pub sort_time : ℤ
sort_time = pos 3

-- `tolower` and `strcasecmp` of the C locale.
abbrev pub tolower : ℕ → ℕ
tolower c = if ltb 64 c && ltb c 91 then c + 32 else c

unfoldable pub strcasecmp : List ℕ → List ℕ → ℤ
strcasecmp [] [] = pos 0
strcasecmp [] (d ∷ ds) = pos 0 -ℤ pos (tolower d)
strcasecmp (c ∷ cs) [] = pos (tolower c)
strcasecmp (c ∷ cs) (d ∷ ds) =
    let rest = strcasecmp cs ds in
    if tolower c == tolower d then rest else pos (tolower c) -ℤ pos (tolower d)

unfoldable pub tf_cmp_dirent_by_type : TfDirent → TfDirent → ℤ
tf_cmp_dirent_by_type de1 de2 = pos de1.type -ℤ pos de2.type

-- `if (ret == 0) ret = second; return ret;`
abbrev pub then_by : ℤ → ℤ → ℤ
then_by ret second = if ret ==ℤ pos 0 then second else ret

unfoldable pub tf_cmp_dirent_by_time : TfDirent → TfDirent → ℤ
unfolding tf_cmp_dirent_by_type
tf_cmp_dirent_by_time de1 de2 =
    then_by (tf_cmp_dirent_by_type de1 de2) (signed32 (pattern32 (de2.stamp -ℤ de1.stamp)))

unfoldable pub tf_cmp_dirent_by_size : TfDirent → TfDirent → ℤ
unfolding tf_cmp_dirent_by_type
tf_cmp_dirent_by_size de1 de2 =
    then_by (tf_cmp_dirent_by_type de1 de2)
      (if ltb de1.size de2.size then pos 1 else if de1.size == de2.size then pos 0 else negsuc 0)

unfoldable pub tf_cmp_dirent_by_name : TfDirent → TfDirent → ℤ
unfolding tf_cmp_dirent_by_type
tf_cmp_dirent_by_name de1 de2 =
    then_by (tf_cmp_dirent_by_type de1 de2) (strcasecmp de1.name de2.name)

unfoldable pub tf_cmp_dirent_by_reverse_name : TfDirent → TfDirent → ℤ
unfolding tf_cmp_dirent_by_type
tf_cmp_dirent_by_reverse_name de1 de2 =
    then_by (tf_cmp_dirent_by_type de1 de2) (pos 0 -ℤ strcasecmp de1.name de2.name)

unfoldable pub tf_cmp_dirent_by_reverse_time : TfDirent → TfDirent → ℤ
unfolding tf_cmp_dirent_by_type
tf_cmp_dirent_by_reverse_time de1 de2 =
    then_by (tf_cmp_dirent_by_type de1 de2) (signed32 (pattern32 (de1.stamp -ℤ de2.stamp)))

unfoldable pub tf_cmp_dirent_by_reverse_size : TfDirent → TfDirent → ℤ
unfolding tf_cmp_dirent_by_type
tf_cmp_dirent_by_reverse_size de1 de2 =
    then_by (tf_cmp_dirent_by_type de1 de2)
      (if ltb de1.size de2.size then negsuc 0 else if de1.size == de2.size then pos 0 else pos 1)

-- `qsort order entries` is the array after the call.
unfoldable pub tf_sort_dirents :
    ((TfDirent → TfDirent → ℤ) → List TfDirent → List TfDirent) → List TfDirent → ℤ → List TfDirent
tf_sort_dirents qsort entries sort_type =
    if sort_type ==ℤ sort_name
    then qsort tf_cmp_dirent_by_name entries
    else if sort_type ==ℤ sort_size
    then qsort tf_cmp_dirent_by_size entries
    else if sort_type ==ℤ sort_time
    then qsort tf_cmp_dirent_by_time entries
    else if sort_type ==ℤ negsuc 0
    then qsort tf_cmp_dirent_by_reverse_name entries
    else if sort_type ==ℤ negsuc 1
    then qsort tf_cmp_dirent_by_reverse_size entries
    else if sort_type ==ℤ negsuc 2
    then qsort tf_cmp_dirent_by_reverse_time entries
    else entries
