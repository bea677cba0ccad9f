-- ===== src/Path/Resolve.antt =====
-- `tf_makename` (tf_util.c) against the meaning of its paths.
use mathlib.Core.List.{reverse, reverse_aux-eq, append-nil}
use libtopfield.Base.{
  ℕ, ◌≡◌, refl, ap, sym, ◌∙◌, false, List, [], ◌∷◌, ◌++◌, append_assoc, none, some, All,
}
use libtopfield.Path.{
  copy_path, skip_slash, trim_slash, add_slash, starts_with_slash, make_parts, replaces_dir,
  tf_makename,
}
use libtopfield.Path.Spec.{IsComponent, join, step, resolve, abs_path, step-IsComponent}
use libtopfield.Path.Buffer.{rev_onto, buffer}
use libtopfield.Path.Copy.{add_slash-Ends, trim_slash-Ends, copy_join}

unfoldable with_slash : List (List ℕ) → List ℕ
with_slash [] = b'/' ∷ []
with_slash (c ∷ dirs) = abs_path (c ∷ dirs) ++ b'/' ∷ []

reverse_cons : (c : ℕ) (out rest : List ℕ) → reverse (c ∷ out) ++ rest ≡ reverse out ++ (c ∷ rest)
reverse_cons c out rest =
    ap (◌++ rest) (reverse_aux-eq out (c ∷ [])) ∙ append_assoc (reverse out) (c ∷ []) rest

reverse-rev_onto : (cs out : List ℕ) → reverse (rev_onto cs out) ≡ reverse out ++ cs
unfolding rev_onto
reverse-rev_onto [] out = sym (append-nil (reverse out))
reverse-rev_onto (c ∷ cs) out = reverse-rev_onto cs (c ∷ out) ∙ reverse_cons c out cs

-- A directory in the buffer is the path before it, then its own name.
reverse_named :
    (c : List ℕ) (dirs : List (List ℕ))
    → reverse (buffer dirs) ≡ with_slash dirs
    → reverse (rev_onto c (buffer dirs)) ≡ abs_path (c ∷ dirs)
unfolding with_slash abs_path
reverse_named c [] h = reverse-rev_onto c (buffer []) ∙ ap (◌++ c) h
reverse_named c (d ∷ dirs) h =
    reverse-rev_onto c (buffer (d ∷ dirs))
    ∙ ap (◌++ c) h
    ∙ append_assoc (abs_path (d ∷ dirs)) (b'/' ∷ []) c

reverse-buffer : (dirs : List (List ℕ)) → reverse (buffer dirs) ≡ with_slash dirs
unfolding buffer with_slash
reverse-buffer [] = refl
reverse-buffer (c ∷ dirs) =
    reverse_aux-eq (rev_onto c (buffer dirs)) (b'/' ∷ [])
    ∙ ap (◌++ (b'/' ∷ [])) (reverse_named c dirs (reverse-buffer dirs))

trim_slash-rev_onto :
    (c : ℕ) (cs out : List ℕ) → trim_slash (b'/' ∷ rev_onto cs (c ∷ out)) ≡ rev_onto cs (c ∷ out)
unfolding rev_onto trim_slash
trim_slash-rev_onto c [] out = refl
trim_slash-rev_onto c (d ∷ cs) out = trim_slash-rev_onto d cs (c ∷ out)

trim_slash-buffer :
    (c : ℕ) (cs : List ℕ) (dirs : List (List ℕ))
    → trim_slash (buffer ((c ∷ cs) ∷ dirs)) ≡ rev_onto (c ∷ cs) (buffer dirs)
unfolding buffer rev_onto
trim_slash-buffer c cs dirs = trim_slash-rev_onto c cs (buffer dirs)

-- What is left without the trailing slash is the path of the innermost directory.
reverse-trim_slash :
    (dirs : List (List ℕ))
    → All IsComponent dirs
    → reverse (trim_slash (buffer dirs)) ≡ abs_path dirs
reverse-trim_slash [] h = unfold buffer trim_slash abs_path in refl
reverse-trim_slash ([] ∷ dirs) h = absurd h.0
reverse-trim_slash ((c ∷ cs) ∷ dirs) h =
    ap reverse (trim_slash-buffer c cs dirs) ∙ reverse_named (c ∷ cs) dirs (reverse-buffer dirs)

resolve-IsComponent :
    (cs dirs : List (List ℕ))
    → All IsComponent cs
    → All IsComponent dirs
    → All IsComponent (resolve dirs cs)
unfolding resolve
resolve-IsComponent [] dirs h hd = hd
resolve-IsComponent (c ∷ cs) dirs h hd =
    resolve-IsComponent cs (step dirs c) h.1 (step-IsComponent dirs c hd h.0)

-- Joined components do not start with a slash.
starts_with_slash-append :
    (c : List ℕ) (rest : List ℕ) → IsComponent c → starts_with_slash (c ++ rest) ≡ false
unfolding starts_with_slash
starts_with_slash-append [] rest h = absurd h
starts_with_slash-append (x ∷ c) rest h = h.0

starts_with_slash-join :
    (cs : List (List ℕ)) → All IsComponent cs → starts_with_slash (join cs) ≡ false
unfolding join
starts_with_slash-join [] h = unfold starts_with_slash in refl
starts_with_slash-join (c ∷ []) h =
    ap starts_with_slash (sym (append-nil c)) ∙ starts_with_slash-append c [] h.0
starts_with_slash-join (c ∷ d ∷ cs) h = starts_with_slash-append c (b'/' ∷ join (d ∷ cs)) h.0

skip_slash-none : (path : List ℕ) → starts_with_slash path ≡ false → skip_slash path ≡ path
unfolding starts_with_slash skip_slash
skip_slash-none [] h = refl
skip_slash-none (c ∷ path) h = rw h

-- A path that starts with a slash.
abbrev rooted : List (List ℕ) → List ℕ
rooted cs = b'/' ∷ join cs

-- Both parts of the name, over whatever directories are open before them.
trim_join :
    (cs dirs : List (List ℕ))
    → All IsComponent cs
    → All IsComponent dirs
    → reverse (trim_slash (copy_path (join cs) (buffer dirs))) ≡ abs_path (resolve dirs cs)
trim_join cs dirs h hd =
    ap reverse (trim_slash-Ends _ (resolve dirs cs) (copy_join cs dirs h hd))
    ∙ reverse-trim_slash (resolve dirs cs) (resolve-IsComponent cs dirs h hd)

make_dir :
    (cs : List (List ℕ))
    → All IsComponent cs
    → reverse (make_parts (rooted cs) none) ≡ abs_path (resolve [] cs)
unfolding make_parts skip_slash buffer
make_dir cs h = trim_join cs [] h tt

make_file :
    (ds fs : List (List ℕ))
    → All IsComponent ds
    → All IsComponent fs
    → reverse (make_parts (rooted ds) (some (join fs))) ≡ abs_path (resolve (resolve [] ds) fs)
unfolding make_parts skip_slash buffer
make_file ds fs hd hf =
    ap (λ path. reverse (trim_slash (copy_path path (add_slash (copy_path (join ds) (buffer []))))))
      (skip_slash-none (join fs) (starts_with_slash-join fs hf))
    ∙ ap (λ out. reverse (trim_slash (copy_path (join fs) out)))
        (add_slash-Ends (copy_path (join ds) (buffer [])) (resolve [] ds) (copy_join ds [] hd tt))
    ∙ trim_join fs (resolve [] ds) hf (resolve-IsComponent ds [] hd tt)

replaces_dir-relative :
    (dir filename : List ℕ)
    → starts_with_slash filename ≡ false
    → replaces_dir dir (some filename) ≡ make_parts dir (some filename)
unfolding replaces_dir
replaces_dir-relative dir filename h = rw h

-- Components `ds` under the root and components `fs`, a `..` among them taking back the component
-- before it and nothing at the root: the directory alone gives the path of `ds`, a relative file
-- name is resolved from there, and a file name from the root leaves the directory out.
pub tf_makename_resolves :
    (ds fs : List (List ℕ)) (dir : List ℕ)
    → All IsComponent ds
    → All IsComponent fs
    → (tf_makename (b'/' ∷ join ds) none ≡ abs_path (resolve [] ds))
      × (tf_makename (b'/' ∷ join ds) (some (join fs)) ≡ abs_path (resolve (resolve [] ds) fs))
      × (tf_makename dir (some (b'/' ∷ join fs)) ≡ abs_path (resolve [] fs))
unfolding tf_makename replaces_dir starts_with_slash
tf_makename_resolves ds fs dir hd hf = (
  make_dir ds hd,
  ap reverse (replaces_dir-relative (rooted ds) (join fs) (starts_with_slash-join fs hf))
      ∙ make_file ds fs hd hf,
  make_dir fs hf,
)
