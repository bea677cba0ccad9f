-- ===== src/Examples/Sorts.antt =====
-- Sorting with an insertion sort in the place of libc's `qsort`.
use libtopfield.Base.{ℕ, ◌≡◌, refl, arith, List, [], ◌∷◌, All, if◌then◌else◌, Bool-cases, inl, inr}
use libtopfield.Base.Int.{ℤ, pos, ltb_ℤ}
use mathlib.Core.List.{Perm}
use mathlib.Core.List.Perm
use libtopfield.Dirent.{TfDirent}
use libtopfield.Sort.{tf_sort_dirents, tf_cmp_dirent_by_name, tf_cmp_dirent_by_type, strcasecmp}
use libtopfield.Sort.Order.{Before, IsOrder}
use libtopfield.Sort.Sorted.{Ordered, Qsort, SortKind, sort_type, Ranks, tf_sort_dirents-Ordered}

insert : (TfDirent → TfDirent → ℤ) → TfDirent → List TfDirent → List TfDirent
insert cmp d [] = d ∷ []
insert cmp d (e ∷ entries) =
    let further = insert cmp d entries in
    if ltb_ℤ (pos 0) (cmp d e) then e ∷ further else d ∷ e ∷ entries

sort_by : (TfDirent → TfDirent → ℤ) → List TfDirent → List TfDirent
sort_by cmp [] = []
sort_by cmp (d ∷ entries) = insert cmp d (sort_by cmp entries)

All-insert :
    (Q : TfDirent → Type 0) (cmp : TfDirent → TfDirent → ℤ) (d : TfDirent) (entries : List TfDirent)
    → Q d
    → All Q entries
    → All Q (insert cmp d entries)
unfolding insert
All-insert Q cmp d [] p ps = (p, tt)
All-insert Q cmp d (e ∷ entries) p ps = elim (Bool-cases (ltb_ℤ (pos 0) (cmp d e))) [
  | inl behind ↦ rw behind (ps.0, All-insert Q cmp d entries p ps.1)
  | inr front ↦ rw front (p, ps)
]

All-sort_by :
    (Q : TfDirent → Type 0) (cmp : TfDirent → TfDirent → ℤ) (entries : List TfDirent)
    → All Q entries
    → All Q (sort_by cmp entries)
unfolding sort_by
All-sort_by Q cmp [] ps = tt
All-sort_by Q cmp (d ∷ entries) ps =
    All-insert Q cmp d (sort_by cmp entries) ps.0 (All-sort_by Q cmp entries ps.1)

insert-perm :
    (cmp : TfDirent → TfDirent → ℤ) (d : TfDirent) (entries : List TfDirent)
    → Perm (insert cmp d entries) (d ∷ entries)
unfolding insert
insert-perm cmp d [] = Perm.rfl
insert-perm cmp d (e ∷ entries) = elim (Bool-cases (ltb_ℤ (pos 0) (cmp d e))) [
  | inl behind ↦
      rw behind (Perm.trans (Perm.cons e (insert-perm cmp d entries)) (Perm.swap d e entries))
  | inr front ↦ rw front Perm.rfl
]

sort_by-perm :
    (cmp : TfDirent → TfDirent → ℤ) (entries : List TfDirent) → Perm (sort_by cmp entries) entries
unfolding sort_by
sort_by-perm cmp [] = Perm.rfl
sort_by-perm cmp (d ∷ entries) =
    Perm.trans (insert-perm cmp d (sort_by cmp entries)) (Perm.cons d (sort_by-perm cmp entries))

module _ (P : TfDirent → Type 0) (cmp : TfDirent → TfDirent → ℤ) (o : IsOrder P cmp) where
  in_front :
      (d e : TfDirent) (entries : List TfDirent)
      → P d
      → P e
      → All P entries
      → Before cmp d e
      → All (Before cmp e) entries
      → All (Before cmp d) entries
  in_front d e [] p q ps h hs = tt
  in_front d e (x ∷ entries) p q ps h hs =
      (o.trans d e x p q ps.0 h hs.0, in_front d e entries p q ps.1 h hs.1)

  insert-Ordered :
      (d : TfDirent) (entries : List TfDirent)
      → P d
      → All P entries
      → Ordered (Before cmp) entries
      → Ordered (Before cmp) (insert cmp d entries)
  unfolding insert
  insert-Ordered d [] p ps s = (tt, tt)
  insert-Ordered d (e ∷ entries) p ps s = elim (Bool-cases (ltb_ℤ (pos 0) (cmp d e))) [
    | inr front ↦
        let first : Before cmp d e = ground (arith, front) in
        rw front ((first, in_front d e entries p ps.0 ps.1 first s.0), s)
    | inl behind ↦
        let first : Before cmp e d = elim (o.total d e p ps.0) [
          | inl wrong ↦ absurd (ground (arith, behind, wrong))
          | inr right ↦ right
        ] in
        rw behind
          (All-insert (Before cmp e) cmp d entries first s.0, insert-Ordered d entries p ps.1 s.1)
  ]

  sort_by-Ordered :
      (entries : List TfDirent) → All P entries → Ordered (Before cmp) (sort_by cmp entries)
  unfolding sort_by
  sort_by-Ordered [] ps = tt
  sort_by-Ordered (d ∷ entries) ps =
      insert-Ordered d (sort_by cmp entries) ps.0 (All-sort_by P cmp entries ps.1)
        (sort_by-Ordered entries ps.1)

sort_by-Qsort : Qsort sort_by
sort_by-Qsort = record {
  permutes = λ P cmp entries o ps. (sort_by-perm cmp entries, All-sort_by P cmp entries ps);
  orders = λ P cmp entries o ps. sort_by-Ordered P cmp o entries ps;
}

abbrev entry : ℕ → ℕ → List ℕ → TfDirent
entry type size name = record { stamp = pos 0; type = type; size = size; name = name; attrib = 0 }

abbrev shelf : List TfDirent
shelf = entry b'f' 7 (b'B' ∷ []) ∷ entry b'd' 0 (b'z' ∷ []) ∷ entry b'f' 9 (b'a' ∷ []) ∷ []

shelf_sorted :
    tf_sort_dirents sort_by shelf (pos 1)
    ≡ entry b'd' 0 (b'z' ∷ []) ∷ entry b'f' 9 (b'a' ∷ []) ∷ entry b'f' 7 (b'B' ∷ []) ∷ []
unfolding tf_sort_dirents sort_by insert tf_cmp_dirent_by_name tf_cmp_dirent_by_type strcasecmp
shelf_sorted = refl

tf_sort_dirents-Ordered_example :
    Perm (tf_sort_dirents sort_by shelf (sort_type SortKind.name)) shelf
    × Ordered (Ranks SortKind.name) (tf_sort_dirents sort_by shelf (sort_type SortKind.name))
tf_sort_dirents-Ordered_example =
    tf_sort_dirents-Ordered sort_by sort_by-Qsort SortKind.name shelf (omega arith)
