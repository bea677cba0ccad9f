-- ===== src/Path/Copy.antt =====
-- The copying loop of `tf_makename` (tf_util.c) on components.
use libtopfield.Base.{
  ℕ, ◌≡◌, refl, ap, sym, ◌∙◌, ◌⊎◌, inl, inr, arith, Bool, true, false, List, [], ◌∷◌, ◌++◌, All,
  ◌&&◌, Bool-cases,
}
use libtopfield.Path.{is_slash, after_slash, back_up, parent_here, copy_path, trim_slash, add_slash}
use mathlib.Core.Path.{subst}
use libtopfield.Path.Spec.{
  NoSlash, IsComponent, join, is_parent, step, resolve, step_up, step_down, step-IsComponent,
}
use libtopfield.Path.Buffer.{
  rev_onto, buffer, back_up-buffer, after_slash-buffer, add_slash-buffer, rev_onto_cons,
}

-- A character that does not start a `..` is copied.
pub copy_plain :
    (c : ℕ) (path out : List ℕ)
    → after_slash out && parent_here (c ∷ path) ≡ false
    → copy_path (c ∷ path) out ≡ copy_path path (c ∷ out)
unfolding copy_path
copy_plain c [] out h = refl
copy_plain c (d ∷ []) out h = rw h
copy_plain c (d ∷ e ∷ path) out h = ground (arith, h)

-- Within a component no `..` is looked for.
pub copy_within :
    (cs rest out : List ℕ)
    → All NoSlash cs
    → after_slash out ≡ false
    → copy_path (cs ++ b'/' ∷ rest) out ≡ copy_path rest (b'/' ∷ rev_onto cs out)
unfolding rev_onto after_slash
copy_within [] rest out h inside = copy_plain b'/' rest out (rw inside)
copy_within (c ∷ cs) rest out h inside =
    copy_plain c (cs ++ b'/' ∷ rest) out (rw inside) ∙ copy_within cs rest (c ∷ out) h.1 h.0

pub copy_last :
    (cs out : List ℕ)
    → All NoSlash cs
    → after_slash out ≡ false
    → (copy_path cs out ≡ rev_onto cs out) × (after_slash (rev_onto cs out) ≡ false)
unfolding rev_onto after_slash copy_path
copy_last [] out h inside = (refl, inside)
copy_last (c ∷ cs) out h inside =
    let (same, ends) = copy_last cs (c ∷ out) h.1 h.0 in
    (copy_plain c cs out (rw inside) ∙ same, ends)

-- The component `..` is these two characters, and no other component starts a `..`.
pub parent_is : (c : List ℕ) → is_parent c ≡ true → c ≡ b'.' ∷ b'.' ∷ []
unfolding is_parent
parent_is [] h = cc
parent_is (c ∷ []) h = cc
parent_is (c ∷ d ∷ []) h = ground arith
parent_is (c ∷ d ∷ e ∷ cs) h = cc

pub named_here :
    (c : List ℕ) (rest : List ℕ)
    → All NoSlash c
    → is_parent c ≡ false
    → parent_here (c ++ b'/' ∷ rest) ≡ false
unfolding is_parent parent_here
named_here [] [] h n = refl
named_here [] (x ∷ []) h n = refl
named_here [] (x ∷ y ∷ rest) h n = refl
named_here (c ∷ []) [] h n = ground arith
named_here (c ∷ []) (x ∷ rest) h n = ground arith
named_here (c ∷ d ∷ []) rest h n = ground (arith, n)
named_here (c ∷ d ∷ e ∷ cs) rest h n = ground (arith, h.1.1.0)

pub named_last : (c : List ℕ) → All NoSlash c → is_parent c ≡ false → parent_here c ≡ false
unfolding is_parent parent_here
named_last [] h n = refl
named_last (c ∷ []) h n = refl
named_last (c ∷ d ∷ []) h n = n
named_last (c ∷ d ∷ e ∷ cs) h n = ground (arith, h.1.1.0)

pub and_false : (a b : Bool) → b ≡ false → (a && b) ≡ false
and_false true b h = h
and_false false b h = refl

pub copy_parent :
    (rest out : List ℕ)
    → after_slash out ≡ true
    → copy_path (b'.' ∷ b'.' ∷ b'/' ∷ rest) out ≡ copy_path rest (back_up out)
unfolding copy_path parent_here
copy_parent rest out h = rw (h, copy_path)

pub copy_parent_last :
    (out : List ℕ) → after_slash out ≡ true → copy_path (b'.' ∷ b'.' ∷ []) out ≡ back_up out
unfolding copy_path parent_here
copy_parent_last out h = rw h

-- One component with its slash.
pub copy_component :
    (c rest : List ℕ) (dirs : List (List ℕ))
    → IsComponent c
    → All IsComponent dirs
    → copy_path (c ++ b'/' ∷ rest) (buffer dirs) ≡ copy_path rest (buffer (step dirs c))
copy_component [] rest dirs h hd = absurd h
copy_component (c ∷ cs) rest dirs h hd = elim (Bool-cases (is_parent (c ∷ cs))) [
  | inl up ↦
      ap (λ t. copy_path (t ++ b'/' ∷ rest) (buffer dirs)) (parent_is (c ∷ cs) up)
      ∙ copy_parent rest (buffer dirs) (after_slash-buffer dirs)
      ∙ ap (copy_path rest) (back_up-buffer dirs hd ∙ ap buffer (sym (step_up dirs (c ∷ cs) up)))
  | inr down ↦ rw (step_down dirs (c ∷ cs) down) (
      copy_plain c (cs ++ b'/' ∷ rest) (buffer dirs)
        (and_false _ _ (named_here (c ∷ cs) rest h down))
      ∙ copy_within cs rest (c ∷ buffer dirs) h.1 (unfold after_slash in h.0)
      ∙ (unfold buffer rev_onto in refl))
]

-- What is in the buffer behind the last component: the directory's, or all of it but its slash.
pub Ends : List ℕ → List ℕ → Type 0
Ends out full =
    (out ≡ full)
    ⊎ ((d : ℕ) × (r : List ℕ) × (out ≡ d ∷ r) × (is_slash d ≡ false) × (b'/' ∷ out ≡ full))

add_slash_plain : (d : ℕ) (r : List ℕ) → is_slash d ≡ false → add_slash (d ∷ r) ≡ b'/' ∷ d ∷ r
unfolding add_slash after_slash
add_slash_plain d r h = rw h

trim_slash_plain :
    (d : ℕ) (r : List ℕ) → is_slash d ≡ false → trim_slash (d ∷ r) ≡ trim_slash (b'/' ∷ d ∷ r)
unfolding trim_slash
trim_slash_plain d [] h = refl
trim_slash_plain d (x ∷ r) h = rw h

pub add_slash-Ends :
    (out : List ℕ) (dirs : List (List ℕ)) → Ends out (buffer dirs) → add_slash out ≡ buffer dirs
unfolding Ends
add_slash-Ends out dirs (inl e) = ap add_slash e ∙ add_slash-buffer dirs
add_slash-Ends out dirs (inr (d, r, e, plain, full)) =
    ap add_slash e ∙ add_slash_plain d r plain ∙ sym (ap (b'/' ∷◌) e) ∙ full

pub trim_slash-Ends :
    (out : List ℕ) (dirs : List (List ℕ))
    → Ends out (buffer dirs)
    → trim_slash out ≡ trim_slash (buffer dirs)
unfolding Ends
trim_slash-Ends out dirs (inl e) = ap trim_slash e
trim_slash-Ends out dirs (inr (d, r, e, plain, full)) =
    ap trim_slash e ∙ trim_slash_plain d r plain ∙ sym (ap trim_slash (sym full ∙ ap (b'/' ∷◌) e))

copy_end :
    (c : List ℕ) (dirs : List (List ℕ))
    → IsComponent c
    → All IsComponent dirs
    → Ends (copy_path c (buffer dirs)) (buffer (step dirs c))
unfolding Ends
copy_end [] dirs h hd = absurd h
copy_end (c ∷ cs) dirs h hd = elim (Bool-cases (is_parent (c ∷ cs))) [
  | inl up ↦ inl (
      ap (λ t. copy_path t (buffer dirs)) (parent_is (c ∷ cs) up)
      ∙ copy_parent_last (buffer dirs) (after_slash-buffer dirs)
      ∙ back_up-buffer dirs hd
      ∙ ap buffer (sym (step_up dirs (c ∷ cs) up)))
  | inr down ↦
      let (same, ends) = copy_last cs (c ∷ buffer dirs) h.1 (unfold after_slash in h.0) in
      let (d, r, e) = rev_onto_cons cs (buffer dirs) c in
      let whole =
        copy_plain c cs (buffer dirs) (and_false _ _ (named_last (c ∷ cs) h down)) ∙ same in
      inr (
        d,
        r,
        whole ∙ e,
        (unfold after_slash in sym (ap after_slash e) ∙ ends),
        ap (b'/' ∷◌) whole
            ∙ (unfold buffer rev_onto in ap buffer (sym (step_down dirs (c ∷ cs) down))),
      )
]

-- The copying loop over joined components opens the directories that they name.
pub copy_join :
    (cs dirs : List (List ℕ))
    → All IsComponent cs
    → All IsComponent dirs
    → Ends (copy_path (join cs) (buffer dirs)) (buffer (resolve dirs cs))
unfolding join resolve
copy_join [] dirs h hd = unfold copy_path Ends in inl refl
copy_join (c ∷ []) dirs h hd = copy_end c dirs h.0 hd
copy_join (c ∷ d ∷ cs) dirs h hd =
    subst (λ out. Ends out (buffer (resolve (step dirs c) (d ∷ cs))))
      (sym (copy_component c (join (d ∷ cs)) dirs h.0 hd))
      (copy_join (d ∷ cs) (step dirs c) h.1 (step-IsComponent dirs c hd h.0))
