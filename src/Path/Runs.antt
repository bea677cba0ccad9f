-- ===== src/Path/Runs.antt =====
-- The table of test_makename.c, on `tf_makename` (tf_util.c).
use Prim.Native.Char.{code}
use Prim.Native.String.{String}
use libtopfield.Base.{ℕ, List, [], ◌∷◌, none, some, ◌≡◌, refl}
use libtopfield.Path.{tf_makename}

abbrev codes : String → List ℕ
codes String.[] = []
codes (String.◌∷◌ c s) = code c ∷ codes s

abbrev named : String → String → List ℕ
named dir filename = tf_makename (codes dir) (some (codes filename))

makename_table :
    (tf_makename (codes "") none ≡ codes "/")
    × (named "" "" ≡ codes "/")
    × (named "/" "" ≡ codes "/")
    × (named "" "file" ≡ codes "/file")
    × (named "/" "file" ≡ codes "/file")
    × (named "/dir" "file" ≡ codes "/dir/file")
    × (named "/dir" "/file" ≡ codes "/file")
    × (named "/dir/" "file" ≡ codes "/dir/file")
    × (named "/dir/" "/file/" ≡ codes "/file")
    × (named "dir" "file" ≡ codes "/dir/file")
    × (named "/dir/../newdir" "file" ≡ codes "/newdir/file")
    × (named "/../newdir" "file" ≡ codes "/newdir/file")
    × (named "/dir/olddir" ".." ≡ codes "/dir")
    × (named "/dir/olddir" "../newdir" ≡ codes "/dir/newdir")
unfolding tf_makename
makename_table =
    (refl, refl, refl, refl, refl, refl, refl, refl, refl, refl, refl, refl, refl, refl)
