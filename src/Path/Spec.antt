-- ===== src/Path/Spec.antt =====
-- What the paths given to `tf_makename` (tf_util.c) mean: lists of component names, where `..` takes
-- back the component before it.
use libtopfield.Base.{
  ℕ, ◌≡◌, arith, Bool, true, false, List, [], ◌∷◌, ◌++◌, All, ◌==◌, ◌&&◌, if◌then◌else◌,
}
use libtopfield.Path.{is_slash}

-- A component is a name with no slash in it that is not empty.
abbrev pub NoSlash : ℕ → Type 0
NoSlash c = is_slash c ≡ false

abbrev pub IsComponent : List ℕ → Type 0
IsComponent [] = ⊥
IsComponent (c ∷ cs) = All NoSlash (c ∷ cs)

-- Components joined by slashes.
unfoldable pub join : List (List ℕ) → List ℕ
join [] = []
join (c ∷ []) = c
join (c ∷ d ∷ cs) = c ++ b'/' ∷ join (d ∷ cs)

-- The component `..`.
unfoldable pub is_parent : List ℕ → Bool
is_parent [] = false
is_parent (c ∷ []) = false
is_parent (c ∷ d ∷ []) = (c == b'.') && (d == b'.')
is_parent (c ∷ d ∷ e ∷ cs) = false

abbrev pub parent_of : List (List ℕ) → List (List ℕ)
parent_of [] = []
parent_of (c ∷ dirs) = dirs

-- The directories that are open, innermost first, after some more components.
unfoldable pub step : List (List ℕ) → List ℕ → List (List ℕ)
step dirs c = if is_parent c then parent_of dirs else c ∷ dirs

unfoldable pub resolve : List (List ℕ) → List (List ℕ) → List (List ℕ)
resolve dirs [] = dirs
resolve dirs (c ∷ cs) = resolve (step dirs c) cs

-- The absolute path of the innermost one.
unfoldable pub abs_path : List (List ℕ) → List ℕ
abs_path [] = b'/' ∷ []
abs_path (c ∷ []) = b'/' ∷ c
abs_path (c ∷ d ∷ dirs) = abs_path (d ∷ dirs) ++ b'/' ∷ c

pub step_up :
    (dirs : List (List ℕ)) (c : List ℕ) → is_parent c ≡ true → step dirs c ≡ parent_of dirs
unfolding step
step_up dirs c h = rw h

pub step_down : (dirs : List (List ℕ)) (c : List ℕ) → is_parent c ≡ false → step dirs c ≡ c ∷ dirs
unfolding step
step_down dirs c h = rw h

pub step-IsComponent :
    (dirs : List (List ℕ)) (c : List ℕ)
    → All IsComponent dirs
    → IsComponent c
    → All IsComponent (step dirs c)
unfolding step
step-IsComponent [] c hd h = ground arith
step-IsComponent (x ∷ dirs) c hd h = ground arith
