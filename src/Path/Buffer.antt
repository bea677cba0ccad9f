-- ===== src/Path/Buffer.antt =====
-- The output buffer of `tf_makename` (tf_util.c) for a list of open directories.
use libtopfield.Base.{ℕ, ◌≡◌, ◌≢◌, refl, ◌∙◌, true, List, [], ◌∷◌, All}
use libtopfield.Path.{after_slash, last_slash, back_up, add_slash}
use libtopfield.Path.Spec.{NoSlash, IsComponent, parent_of}

-- The output buffer for open directories, last character first.
unfoldable pub rev_onto : List ℕ → List ℕ → List ℕ
rev_onto [] out = out
rev_onto (c ∷ cs) out = rev_onto cs (c ∷ out)

unfoldable pub buffer : List (List ℕ) → List ℕ
buffer [] = b'/' ∷ []
buffer (c ∷ dirs) = b'/' ∷ rev_onto c (buffer dirs)

-- Backing up from behind a component leaves what was before it.
pub last_slash-rev_onto :
    (cs out : List ℕ) → All NoSlash cs → last_slash (rev_onto cs out) ≡ last_slash out
unfolding rev_onto last_slash
last_slash-rev_onto [] out h = refl
last_slash-rev_onto (c ∷ cs) out h = last_slash-rev_onto cs (c ∷ out) h.1 ∙ rw h.0

pub last_slash-buffer : (dirs : List (List ℕ)) → last_slash (buffer dirs) ≡ buffer dirs
unfolding buffer last_slash
last_slash-buffer [] = refl
last_slash-buffer (c ∷ dirs) = refl

pub rev_onto_cons :
    (cs out : List ℕ) (c : ℕ) → (d : ℕ) × (r : List ℕ) × (rev_onto cs (c ∷ out) ≡ d ∷ r)
unfolding rev_onto
rev_onto_cons [] out c = (c, out, refl)
rev_onto_cons (d ∷ cs) out c = rev_onto_cons cs (c ∷ out) d

pub back_up-cons : (x : ℕ) (xs : List ℕ) → xs ≢ [] → back_up (x ∷ xs) ≡ last_slash xs
unfolding back_up
back_up-cons x [] h = absurd (h refl)
back_up-cons x (y ∷ xs) h = refl

pub back_up-buffer :
    (dirs : List (List ℕ)) → All IsComponent dirs → back_up (buffer dirs) ≡ buffer (parent_of dirs)
back_up-buffer [] h = unfold back_up buffer in refl
back_up-buffer ([] ∷ dirs) h = absurd h.0
back_up-buffer ((c ∷ cs) ∷ dirs) h =
    let (d, r, e) = rev_onto_cons cs (buffer dirs) c in
    unfold buffer rev_onto in
    (back_up-cons b'/' (rev_onto cs (c ∷ buffer dirs)) (λ z. cc)
      ∙ last_slash-rev_onto (c ∷ cs) (buffer dirs) h.0
      ∙ last_slash-buffer dirs)

pub after_slash-buffer : (dirs : List (List ℕ)) → after_slash (buffer dirs) ≡ true
unfolding buffer after_slash
after_slash-buffer [] = refl
after_slash-buffer (c ∷ dirs) = refl

pub add_slash-buffer : (dirs : List (List ℕ)) → add_slash (buffer dirs) ≡ buffer dirs
unfolding add_slash
add_slash-buffer dirs = rw (after_slash-buffer dirs)
