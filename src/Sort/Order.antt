-- ===== src/Sort/Order.antt =====
-- The comparison functions (tf_util.c) as orders.
use libtopfield.Base.{ℕ, ◌-◌, ◌<◌, ◌≡◌, ◌⊎◌, refl, arith, List, [], ◌∷◌, All, ◌^◌}
use libtopfield.Base.Int.{ℤ, pos, negsuc, ◌-ℤ◌, ◌≤ℤ◌, signed32, pattern32}
use libtopfield.Dirent.{TfDirent}
use libtopfield.Packet.Filename.{IsChar}
use libtopfield.Sort.{
  then_by, tf_cmp_dirent_by_type, tf_cmp_dirent_by_size, tf_cmp_dirent_by_reverse_size, strcasecmp,
  tf_cmp_dirent_by_name, tf_cmp_dirent_by_reverse_name, tf_cmp_dirent_by_time,
  tf_cmp_dirent_by_reverse_time,
}

-- `a` may stand before `b`.
abbrev pub Before : (TfDirent → TfDirent → ℤ) → TfDirent → TfDirent → Type 0
Before cmp a b = cmp a b ≤ℤ pos 0

-- A comparison function that `qsort` can use on entries with `P`, with the directories in front.
pub record IsOrder (P : TfDirent → Type 0) (cmp : TfDirent → TfDirent → ℤ) : Type 0 where
  pub total : (a b : TfDirent) → P a → P b → Before cmp a b ⊎ Before cmp b a
  pub trans :
      (a b c : TfDirent) → P a → P b → P c → Before cmp a b → Before cmp b c → Before cmp a c
  pub dirs_first : (a b : TfDirent) → a.type < b.type → (cmp a b ≤ℤ negsuc 0) × (pos 1 ≤ℤ cmp b a)

abbrev pub Any : TfDirent → Type 0
Any d = Unit

-- A name without the terminator.
abbrev pub CName : TfDirent → Type 0
CName d = All IsChar d.name

-- A time stamp from 1970 to 2038.
abbrev pub Timed : TfDirent → Type 0
Timed d = (pos 0 ≤ℤ d.stamp) × (d.stamp ≤ℤ pos (2 ^ 31 - 1))

pub by_size : IsOrder Any tf_cmp_dirent_by_size
unfolding tf_cmp_dirent_by_size tf_cmp_dirent_by_type
by_size = record {
  total = λ a b _ _. ground arith;
  trans = λ a b c _ _ _ h k. ground arith;
  dirs_first = λ a b h. ground arith;
}

pub by_reverse_size : IsOrder Any tf_cmp_dirent_by_reverse_size
unfolding tf_cmp_dirent_by_reverse_size tf_cmp_dirent_by_type
by_reverse_size = record {
  total = λ a b _ _. ground arith;
  trans = λ a b c _ _ _ h k. ground arith;
  dirs_first = λ a b h. ground arith;
}

-- Equal types leave it to the second key.
then_by-trans :
    (x y z : ℕ) (u v w : ℤ)
    → (u ≤ℤ pos 0 → v ≤ℤ pos 0 → w ≤ℤ pos 0)
    → then_by (pos x -ℤ pos y) u ≤ℤ pos 0
    → then_by (pos y -ℤ pos z) v ≤ℤ pos 0
    → then_by (pos x -ℤ pos z) w ≤ℤ pos 0
then_by-trans x y z u v w f h k = ground (arith, f)

-- Between stamps from 1970 to 2038 the `int` is the difference.
pub difference_fits :
    (a b : ℤ)
    → (pos 0 ≤ℤ a) × (a ≤ℤ pos (2 ^ 31 - 1))
    → (pos 0 ≤ℤ b) × (b ≤ℤ pos (2 ^ 31 - 1))
    → signed32 (pattern32 (a -ℤ b)) ≡ a -ℤ b
difference_fits (pos m) (pos n) p q = ground arith
difference_fits (pos m) (negsuc n) p q = ground arith
difference_fits (negsuc m) (pos n) p q = ground arith
difference_fits (negsuc m) (negsuc n) p q = ground arith

sub-trans : (a b c : ℤ) → (b -ℤ a) ≤ℤ pos 0 → (c -ℤ b) ≤ℤ pos 0 → (c -ℤ a) ≤ℤ pos 0
sub-trans a b c h k = ground arith

pub by_time : IsOrder Timed tf_cmp_dirent_by_time
unfolding tf_cmp_dirent_by_time tf_cmp_dirent_by_type
by_time = record {
  total = λ a b p q.
      rw (difference_fits a.stamp b.stamp p q, difference_fits b.stamp a.stamp q p) (ground arith);
  trans = λ a b c p q r.
      rw
        (
          difference_fits b.stamp a.stamp q p,
          difference_fits c.stamp b.stamp r q,
          difference_fits c.stamp a.stamp r p,
        )
        (then_by-trans a.type b.type c.type (b.stamp -ℤ a.stamp) (c.stamp -ℤ b.stamp)
          (c.stamp -ℤ a.stamp) (sub-trans a.stamp b.stamp c.stamp));
  dirs_first = λ a b h. ground arith;
}

pub by_reverse_time : IsOrder Timed tf_cmp_dirent_by_reverse_time
unfolding tf_cmp_dirent_by_reverse_time tf_cmp_dirent_by_type
by_reverse_time = record {
  total = λ a b p q.
      rw (difference_fits a.stamp b.stamp p q, difference_fits b.stamp a.stamp q p) (ground arith);
  trans = λ a b c p q r.
      rw
        (
          difference_fits a.stamp b.stamp p q,
          difference_fits b.stamp c.stamp q r,
          difference_fits a.stamp c.stamp p r,
        )
        (then_by-trans a.type b.type c.type (a.stamp -ℤ b.stamp) (b.stamp -ℤ c.stamp)
          (a.stamp -ℤ c.stamp) (λ h k. sub-trans c.stamp b.stamp a.stamp k h));
  dirs_first = λ a b h. ground arith;
}

pub strcasecmp-neg : (a b : List ℕ) → strcasecmp b a ≡ pos 0 -ℤ strcasecmp a b
unfolding strcasecmp
strcasecmp-neg [] [] = refl
strcasecmp-neg [] (d ∷ ds) = ground arith
strcasecmp-neg (c ∷ cs) [] = ground arith
strcasecmp-neg (c ∷ cs) (d ∷ ds) = let ih = strcasecmp-neg cs ds in ground (arith, ih)

strcasecmp-trans :
    (a b c : List ℕ)
    → All IsChar a
    → All IsChar b
    → strcasecmp a b ≤ℤ pos 0
    → strcasecmp b c ≤ℤ pos 0
    → strcasecmp a c ≤ℤ pos 0
unfolding strcasecmp
strcasecmp-trans [] b [] p q h k = ground arith
strcasecmp-trans [] b (z ∷ c) p q h k = ground arith
strcasecmp-trans (x ∷ a) [] c p q h k = ground arith
strcasecmp-trans (x ∷ a) (y ∷ b) [] p q h k = ground arith
strcasecmp-trans (x ∷ a) (y ∷ b) (z ∷ c) p q h k =
    let ih = strcasecmp-trans a b c p.1 q.1 in ground (arith, ih)

pub by_name : IsOrder CName tf_cmp_dirent_by_name
unfolding tf_cmp_dirent_by_name tf_cmp_dirent_by_type
by_name = record {
  total = λ a b p q. let n = strcasecmp-neg a.name b.name in ground (arith, n);
  trans = λ a b c p q r h k. let n = strcasecmp-trans a.name b.name c.name p q in ground (arith, n);
  dirs_first = λ a b h. ground arith;
}

pub by_reverse_name : IsOrder CName tf_cmp_dirent_by_reverse_name
unfolding tf_cmp_dirent_by_reverse_name tf_cmp_dirent_by_type
by_reverse_name = record {
  total = λ a b p q. let n = strcasecmp-neg a.name b.name in ground (arith, n);
  trans = λ a b c p q r.
      rw⁻¹
        (strcasecmp-neg a.name b.name, strcasecmp-neg b.name c.name, strcasecmp-neg a.name c.name)
        (then_by-trans a.type b.type c.type (strcasecmp b.name a.name) (strcasecmp c.name b.name)
          (strcasecmp c.name a.name) (λ h k. strcasecmp-trans c.name b.name a.name r q k h));
  dirs_first = λ a b h. ground arith;
}

-- All six orders that `tf_sort_dirents` sorts by are total and transitive and put the directories
-- in front: by size for any entries, by name for names without a zero character, by time for
-- stamps from 1970 to 2038.
pub tf_cmp_dirent-IsOrder :
    IsOrder CName tf_cmp_dirent_by_name
    × IsOrder CName tf_cmp_dirent_by_reverse_name
    × IsOrder Any tf_cmp_dirent_by_size
    × IsOrder Any tf_cmp_dirent_by_reverse_size
    × IsOrder Timed tf_cmp_dirent_by_time
    × IsOrder Timed tf_cmp_dirent_by_reverse_time
tf_cmp_dirent-IsOrder =
    (by_name, by_reverse_name, by_size, by_reverse_size, by_time, by_reverse_time)
