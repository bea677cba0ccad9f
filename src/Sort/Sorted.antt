-- ===== src/Sort/Sorted.antt =====
-- `tf_sort_dirents` (tf_util.c) over a `qsort` that sorts.
use libtopfield.Base.{
  ℕ, ◌==◌, if◌then◌else◌, Bool-cases, ◌<◌, ◌≤◌, ◌≡◌, ◌⊎◌, inl, inr, refl, arith, List, [], ◌∷◌, All,
  map,
}
use libtopfield.Base.Int.{ℤ, pos, negsuc, ◌≤ℤ◌, ◌-ℤ◌}
use mathlib.Core.List.{Perm}
use libtopfield.Dirent.{TfDirent}
use libtopfield.Packet.Filename.{IsChar}
use libtopfield.Sort.{
  sort_name, sort_size, sort_time, then_by, tolower, strcasecmp, tf_cmp_dirent_by_type,
  tf_cmp_dirent_by_name, tf_cmp_dirent_by_reverse_name, tf_cmp_dirent_by_size,
  tf_cmp_dirent_by_reverse_size, tf_cmp_dirent_by_time, tf_cmp_dirent_by_reverse_time,
  tf_sort_dirents,
}
use libtopfield.Sort.Order.{
  Before, IsOrder, Any, CName, Timed, by_name, by_reverse_name, by_size, by_reverse_size, by_time,
  by_reverse_time, difference_fits, strcasecmp-neg,
}

-- Every entry stands in the relation to each one behind it.
abbrev pub Ordered : (TfDirent → TfDirent → Type 0) → List TfDirent → Type 0
Ordered R [] = Unit
Ordered R (d ∷ entries) = All (R d) entries × Ordered R entries

-- What libc promises of `qsort`: with a comparison function that is an order on the entries, the
-- array holds the same entries after the call, in that order.
pub record Qsort (qsort : (TfDirent → TfDirent → ℤ) → List TfDirent → List TfDirent) : Type 1 where
  pub permutes :
      (P : TfDirent → Type 0) (cmp : TfDirent → TfDirent → ℤ) (entries : List TfDirent)
      → IsOrder P cmp
      → All P entries
      → Perm (qsort cmp entries) entries × All P (qsort cmp entries)
  pub orders :
      (P : TfDirent → Type 0) (cmp : TfDirent → TfDirent → ℤ) (entries : List TfDirent)
      → IsOrder P cmp
      → All P entries
      → Ordered (Before cmp) (qsort cmp entries)

-- The ways to sort that tf_util.h names.
pub data SortKind : Type 0 where
  name : SortKind
  size : SortKind
  time : SortKind
  reverse_name : SortKind
  reverse_size : SortKind
  reverse_time : SortKind

abbrev pub sort_type : SortKind → ℤ
sort_type name = sort_name
sort_type size = sort_size
sort_type time = sort_time
sort_type reverse_name = negsuc 0
sort_type reverse_size = negsuc 1
sort_type reverse_time = negsuc 2

-- Alphabetical order.
abbrev pub LexLe : List ℕ → List ℕ → Type 0
LexLe [] ds = Unit
LexLe (c ∷ cs) [] = ⊥
LexLe (c ∷ cs) (d ∷ ds) = (c < d) ⊎ ((c ≡ d) × LexLe cs ds)

-- The order of entries of one type: names without regard to case, large and new ones first.
abbrev pub KeyLe : SortKind → TfDirent → TfDirent → Type 0
KeyLe name a b = LexLe (map tolower a.name) (map tolower b.name)
KeyLe size a b = b.size ≤ a.size
KeyLe time a b = b.stamp ≤ℤ a.stamp
KeyLe reverse_name a b = LexLe (map tolower b.name) (map tolower a.name)
KeyLe reverse_size a b = a.size ≤ b.size
KeyLe reverse_time a b = a.stamp ≤ℤ b.stamp

-- The lesser type stands first: 'd' before 'f'.
abbrev pub Ranks : SortKind → TfDirent → TfDirent → Type 0
Ranks kind a b = (a.type < b.type) ⊎ ((a.type ≡ b.type) × KeyLe kind a b)

-- What the order of the kind needs of an entry.
abbrev pub Sortable : SortKind → TfDirent → Type 0
Sortable name d = CName d
Sortable size d = Any d
Sortable time d = Timed d
Sortable reverse_name d = CName d
Sortable reverse_size d = Any d
Sortable reverse_time d = Timed d

first_letters :
    (x y : ℕ) (rest : ℤ)
    → (if x == y then rest else pos x -ℤ pos y) ≤ℤ pos 0
    → (x < y) ⊎ ((x ≡ y) × (rest ≤ℤ pos 0))
first_letters x y rest h = elim (Bool-cases (x == y)) [
  | inl same ↦ inr (ground (arith, same), rw same at h)
  | inr apart ↦ inl (ground (arith, apart, h))
]

strcasecmp-LexLe :
    (a b : List ℕ) → All IsChar a → strcasecmp a b ≤ℤ pos 0 → LexLe (map tolower a) (map tolower b)
unfolding strcasecmp
strcasecmp-LexLe [] b p h = tt
strcasecmp-LexLe (c ∷ a) [] p h = absurd (ground (arith, h))
strcasecmp-LexLe (c ∷ a) (d ∷ b) p h =
    elim (first_letters (tolower c) (tolower d) (strcasecmp a b) h) [
      | inl below ↦ inl below
      | inr (same, rest) ↦ inr (same, strcasecmp-LexLe a b p.1 rest)
    ]

-- The type decides, and the second key where the types are equal.
then_by-Before :
    (x y : ℕ) (key : ℤ)
    → then_by (pos x -ℤ pos y) key ≤ℤ pos 0
    → (x < y) ⊎ ((x ≡ y) × (key ≤ℤ pos 0))
then_by-Before x y key h = elim (Bool-cases (x == y)) [
  | inl same ↦ inr (ground (arith, same), ground (arith, same, h))
  | inr apart ↦ inl (ground (arith, apart, h))
]

abbrev pub compares : SortKind → TfDirent → TfDirent → ℤ
compares name = tf_cmp_dirent_by_name
compares size = tf_cmp_dirent_by_size
compares time = tf_cmp_dirent_by_time
compares reverse_name = tf_cmp_dirent_by_reverse_name
compares reverse_size = tf_cmp_dirent_by_reverse_size
compares reverse_time = tf_cmp_dirent_by_reverse_time

keyed : {K L : Type 0} (x y : ℕ) → (K → L) → (x < y) ⊎ ((x ≡ y) × K) → (x < y) ⊎ ((x ≡ y) × L)
keyed x y f (inl below) = inl below
keyed x y f (inr (same, k)) = inr (same, f k)

Before-Ranks :
    (kind : SortKind) (a b : TfDirent)
    → Sortable kind a
    → Sortable kind b
    → Before (compares kind) a b
    → Ranks kind a b
unfolding tf_cmp_dirent_by_name tf_cmp_dirent_by_reverse_name tf_cmp_dirent_by_size
    tf_cmp_dirent_by_reverse_size tf_cmp_dirent_by_time tf_cmp_dirent_by_reverse_time
    tf_cmp_dirent_by_type
Before-Ranks name a b p q h =
    keyed a.type b.type (strcasecmp-LexLe a.name b.name p) (then_by-Before a.type b.type _ h)
Before-Ranks size a b p q h =
    keyed a.type b.type (λ k. ground (arith, k)) (then_by-Before a.type b.type _ h)
Before-Ranks time a b p q h =
    keyed a.type b.type
      (λ k. let k' = rw (difference_fits b.stamp a.stamp q p) at k in ground (arith, k'))
      (then_by-Before a.type b.type _ h)
Before-Ranks reverse_name a b p q h =
    let n = strcasecmp-neg a.name b.name in
    keyed a.type b.type (λ k. strcasecmp-LexLe b.name a.name q (ground (arith, k, n)))
      (then_by-Before a.type b.type _ h)
Before-Ranks reverse_size a b p q h =
    keyed a.type b.type (λ k. ground (arith, k)) (then_by-Before a.type b.type _ h)
Before-Ranks reverse_time a b p q h =
    keyed a.type b.type
      (λ k. let k' = rw (difference_fits a.stamp b.stamp p q) at k in ground (arith, k'))
      (then_by-Before a.type b.type _ h)

All-Ranks :
    (kind : SortKind) (d : TfDirent) (entries : List TfDirent)
    → Sortable kind d
    → All (Sortable kind) entries
    → All (Before (compares kind) d) entries
    → All (Ranks kind d) entries
All-Ranks kind d [] p ps h = tt
All-Ranks kind d (e ∷ entries) p ps h =
    (Before-Ranks kind d e p ps.0 h.0, All-Ranks kind d entries p ps.1 h.1)

Ordered-Ranks :
    (kind : SortKind) (entries : List TfDirent)
    → All (Sortable kind) entries
    → Ordered (Before (compares kind)) entries
    → Ordered (Ranks kind) entries
Ordered-Ranks kind [] ps h = tt
Ordered-Ranks kind (d ∷ entries) ps h =
    (All-Ranks kind d entries ps.0 ps.1 h.0, Ordered-Ranks kind entries ps.1 h.1)

compares-IsOrder : (kind : SortKind) → IsOrder (Sortable kind) (compares kind)
compares-IsOrder name = by_name
compares-IsOrder size = by_size
compares-IsOrder time = by_time
compares-IsOrder reverse_name = by_reverse_name
compares-IsOrder reverse_size = by_reverse_size
compares-IsOrder reverse_time = by_reverse_time

-- `tf_sort_dirents` calls `qsort` with the comparison function of the kind.
tf_sort_dirents-compares :
    (qsort : (TfDirent → TfDirent → ℤ) → List TfDirent → List TfDirent) (kind : SortKind)
    (entries : List TfDirent)
    → tf_sort_dirents qsort entries (sort_type kind) ≡ qsort (compares kind) entries
unfolding tf_sort_dirents
tf_sort_dirents-compares qsort name entries = refl
tf_sort_dirents-compares qsort size entries = refl
tf_sort_dirents-compares qsort time entries = refl
tf_sort_dirents-compares qsort reverse_name entries = refl
tf_sort_dirents-compares qsort reverse_size entries = refl
tf_sort_dirents-compares qsort reverse_time entries = refl

-- For each of the six ways to sort, `tf_sort_dirents` leaves the same entries, directories in
-- front and those of one type by name without regard to case, by size or by time, up or down:
-- every entry ranks with each one behind it. Conditions: a `qsort` that sorts by any comparison
-- function that is an order on the entries; names without a zero character to sort by name, stamps
-- from 1970 to 2038 to sort by time.
pub tf_sort_dirents-Ordered :
    (qsort : (TfDirent → TfDirent → ℤ) → List TfDirent → List TfDirent)
    → Qsort qsort
    → (kind : SortKind) (entries : List TfDirent) → All (Sortable kind) entries
    → Perm (tf_sort_dirents qsort entries (sort_type kind)) entries
      × Ordered (Ranks kind) (tf_sort_dirents qsort entries (sort_type kind))
tf_sort_dirents-Ordered qsort q kind entries ps =
    let order = compares-IsOrder kind in
    let kept = q.permutes (Sortable kind) (compares kind) entries order ps in
    rw (tf_sort_dirents-compares qsort kind entries) (
      kept.0,
      Ordered-Ranks kind (qsort (compares kind) entries) kept.1
          (q.orders (Sortable kind) (compares kind) entries order ps),
    )
