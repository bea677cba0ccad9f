-- ===== src/Stat/Found.antt =====
-- What `tf_stat` finds (tf_util.c).
use libtopfield.Base.{
  ℕ, zero, suc, false, ◌≢◌, ◌≡◌, ◌⊎◌, refl, inl, inr, arith, true, List, [], ◌∷◌, ◌++◌, Option,
  none, some, All, Bool-cases, Option-cases,
}
use libtopfield.Base.Int.{ℤ, pos}
use libtopfield.Handle.{Usb, State}
use libtopfield.Dirent.{TfDirent}
use libtopfield.Dir.{tf_cmd_dir_first, tf_cmd_dir_next, tf_cmd_dir_cancel}
use libtopfield.Mjd.{TimeZone}
use libtopfield.Path.Spec.{NoSlash}
use libtopfield.Stat.{
  same_name, split_path, parent_dir, find_entry, root_dirent, stat_rounds, tf_stat,
}

same_name-eq : (a b : List ℕ) → same_name a b ≡ true → a ≡ b
unfolding same_name
same_name-eq [] [] h = refl
same_name-eq [] (d ∷ ds) h = cc
same_name-eq (c ∷ cs) [] h = cc
same_name-eq (c ∷ cs) (d ∷ ds) h = let ih = same_name-eq cs ds in ground (arith, ih)

find_entry-name :
    (name : List ℕ) (entries : List TfDirent) (d : TfDirent)
    → find_entry name entries ≡ some d
    → d.name ≡ name
unfolding find_entry
find_entry-name name [] d h = cc
find_entry-name name (e ∷ entries) d h =
    let ih = find_entry-name name entries d in
    let eq = same_name-eq e.name name in ground (arith, ih, eq)

split_path-slashless : (path : List ℕ) → split_path path ≡ none → All NoSlash path
unfolding split_path
split_path-slashless [] h = tt
split_path-slashless (c ∷ path) h = elim (Option-cases (split_path path)) [
  | inl e ↦ let rest = split_path-slashless path e in ground (arith, e, rest, h)
  | inr (r, e) ↦ ground (arith, e, h)
]

-- The name behind the last slash.
split_path-joins :
    (path parent name : List ℕ)
    → split_path path ≡ some (parent, name)
    → (path ≡ parent ++ b'/' ∷ name) × All NoSlash name
unfolding split_path
split_path-joins [] parent name h = cc
split_path-joins (c ∷ path) parent name h = elim (Option-cases (split_path path)) [
  | inl e ↦ ground (arith, e, split_path-slashless path e, h)
  | inr ((front, last), e) ↦
      let (joins, plain) = split_path-joins path front last e in ground (arith, e, joins, plain, h)
]

module _ {W : Type 0} (usb : Usb W) (zone : TimeZone) where
  stat_rounds-name :
      (fuel : ℕ) (name : List ℕ) (ret : ℤ) (entries : Option (List TfDirent)) (s t : State W)
      (rc : ℤ) (d : TfDirent)
      → stat_rounds usb zone fuel name ret entries s ≡ some ((rc, some d), t)
      → (rc ≡ pos 0) × (d.name ≡ name)
  unfolding stat_rounds
  stat_rounds-name zero name ret entries s t rc d h = cc
  stat_rounds-name (suc fuel) name ret none s t rc d h = cc
  stat_rounds-name (suc fuel) name ret (some entries) s t rc d h =
      elim (Option-cases (find_entry name entries)) [
        | inl e ↦ elim (Option-cases (tf_cmd_dir_next usb zone s)) [
          | inl f ↦ ground (arith, e, f, h)
          | inr (((next, more), u), f) ↦
              let ih = stat_rounds-name fuel name next more u t rc d in ground (arith, e, f, ih, h)
        ]
        | inr (found, e) ↦
            let named = find_entry-name name entries found e in
            elim (Option-cases (tf_cmd_dir_cancel usb s)) [
              | inl f ↦ ground (arith, e, f, h)
              | inr ((c, u), f) ↦ ground (arith, e, f, named, h)
            ]
      ]

not_root : (path : List ℕ) → same_name path (b'/' ∷ []) ≡ false → path ≢ b'/' ∷ []
unfolding same_name
not_root path e root = let e' = rw root at e in ground (arith, e')

-- The entry that `tf_stat` brings belongs to the path, and comes with code 0: the root's for the
-- root, and for any other path one with the name that stands behind the last slash of the path.
pub tf_stat-name :
    {W : Type 0} (usb : Usb W) (zone : TimeZone) (fuel : ℕ) (path : List ℕ) (s t : State W) (rc : ℤ)
    (d : TfDirent)
    → tf_stat usb zone fuel path s ≡ some ((rc, some d), t)
    → (rc ≡ pos 0)
      × (((path ≡ b'/' ∷ []) × (d ≡ root_dirent))
          ⊎ ((path ≢ b'/' ∷ [])
              × ((parent : List ℕ) × (path ≡ parent ++ b'/' ∷ d.name) × All NoSlash d.name)))
unfolding tf_stat
tf_stat-name usb zone fuel path s t rc d h = elim (Bool-cases (same_name path (b'/' ∷ []))) [
  | inl e ↦ let eq = same_name-eq path (b'/' ∷ []) e in ground (arith, e, eq, h)
  | inr e ↦ elim (Option-cases (split_path path)) [
    | inl f ↦ ground (arith, e, f, h)
    | inr ((parent, name), f) ↦
        let (joins, plain) = split_path-joins path parent name f in
        elim (Option-cases (tf_cmd_dir_first usb zone (parent_dir parent) s)) [
          | inl g ↦ ground (arith, e, f, g, h)
          | inr (((ret, entries), u), g) ↦
              let named = stat_rounds-name usb zone fuel name ret entries u t rc d in
              let run : stat_rounds usb zone fuel name ret entries u ≡ some ((rc, some d), t) =
                ground (arith, e, f, g, h) in
              let (ok, same) = named run in
              (ok, inr (not_root path e, (parent, rw same joins, rw same plain)))
        ]
  ]
]
