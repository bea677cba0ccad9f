-- ===== src/Stat/Listing.antt =====
-- `tf_stat` (tf_util.c) over a listing that ends.
use libtopfield.Base.{
  ℕ, zero, suc, ◌<◌, ◌≡◌, refl, arith, false, List, [], ◌∷◌, ◌++◌, Option, none, some, length,
  Option-cases, inl, inr,
}
use libtopfield.Base.Int.{ℤ, pos, ◌==ℤ◌}
use libtopfield.Handle.{Usb, State}
use libtopfield.Dirent.{TfDirent}
use libtopfield.Dir.{tf_cmd_dir_first, tf_cmd_dir_next, tf_cmd_dir_cancel}
use libtopfield.Mjd.{TimeZone}
use libtopfield.Stat.{same_name, split_path, parent_dir, find_entry, stat_rounds, tf_stat}

-- A listing that ends, from a state in which the result of the last call is in hand: the lists of
-- entries that its replies bring. It can be cancelled after each of them.
pub data Listing {W : Type 0} (usb : Usb W) (zone : TimeZone)
    : ℤ → Option (List TfDirent) → State W → List (List TfDirent) → Type 0 where
  over :
      {ret : ℤ} {s : State W} {entries : Option (List TfDirent)}
      → (ret ==ℤ pos 0) ≡ false
      → Listing usb zone ret entries s []
  more :
      {s t u : State W} {entries : List TfDirent} {batches : List (List TfDirent)} {ret code : ℤ}
      {next : Option (List TfDirent)}
      → tf_cmd_dir_next usb zone s ≡ some ((ret, next), t)
      → tf_cmd_dir_cancel usb s ≡ some (code, u)
      → Listing usb zone ret next t batches
      → Listing usb zone (pos 0) (some entries) s (entries ∷ batches)

-- All entries of a listing, in order.
unfoldable pub all_entries : List (List TfDirent) → List TfDirent
all_entries [] = []
all_entries (entries ∷ batches) = entries ++ all_entries batches

-- The code for an entry, or for none.
unfoldable pub stat_code : Option TfDirent → ℤ
stat_code none = pos 1
stat_code (some d) = pos 0

find_entry-append :
    (name : List ℕ) (xs ys : List TfDirent)
    → find_entry name xs ≡ none
    → find_entry name (xs ++ ys) ≡ find_entry name ys
unfolding find_entry
find_entry-append name [] ys h = refl
find_entry-append name (d ∷ xs) ys h =
    let ih = find_entry-append name xs ys in ground (arith, ih, h)

find_entry-front :
    (name : List ℕ) (xs ys : List TfDirent) (d : TfDirent)
    → find_entry name xs ≡ some d
    → find_entry name (xs ++ ys) ≡ some d
unfolding find_entry
find_entry-front name [] ys d h = cc
find_entry-front name (e ∷ xs) ys d h =
    let ih = find_entry-front name xs ys d in ground (arith, ih, h)

-- What the loop returns for a listing.
pub record Answers {W : Type 0} (found : Option TfDirent)
    (r : Option ((ℤ × Option TfDirent) × State W)) : Type 0 where
  pub after : State W
  pub returns : r ≡ some ((stat_code found, found), after)

stat_rounds-Answers :
    {W : Type 0} (usb : Usb W) (zone : TimeZone) (fuel : ℕ) (name : List ℕ) {ret : ℤ}
    {entries : Option (List TfDirent)} {s : State W} {batches : List (List TfDirent)}
    → Listing usb zone ret entries s batches
    → length batches < fuel
    → Answers (find_entry name (all_entries batches)) (stat_rounds usb zone fuel name ret entries s)
unfolding stat_rounds all_entries
stat_rounds-Answers usb zone zero name l enough = ground (arith, enough)
stat_rounds-Answers usb zone (suc fuel) name (over {s = s} {entries = none} stopped) enough =
    unfold find_entry stat_code in record { after = s; returns = refl }
stat_rounds-Answers usb zone (suc fuel) name (over {s = s} {entries = some es} stopped) enough =
    unfold find_entry stat_code in record { after = s; returns = ground (arith, stopped) }
stat_rounds-Answers usb zone (suc fuel) name
      (more {s = s} {t = t} {u = u} {entries = es} {batches = batches} {code = code} nexts cancels
        rest)
      enough =
    elim (Option-cases (find_entry name es)) [
      | inr (d, e) ↦
          rw (find_entry-front name es (all_entries batches) d e)
            (record { after = u; returns = unfold stat_code in ground (arith, e, cancels) })
      | inl e ↦
          let run = stat_rounds-Answers usb zone fuel name rest (omega (arith, enough)) in
          rw (find_entry-append name es (all_entries batches) e)
            (record { after = run.after; returns = ground (arith, e, nexts, run.returns) })
    ]

-- `tf_stat` of a path other than the root, over a listing of its parent that ends: it returns 0 with
-- the first entry of that name in the whole listing, over however many replies, and 1 if there is
-- none. Conditions: the path has a slash, the listing can be cancelled, and the fuel exceeds the
-- number of its replies.
pub tf_stat-Answers :
    {W : Type 0} (usb : Usb W) (zone : TimeZone) (fuel : ℕ) (path parent name : List ℕ)
    (s t : State W) (ret : ℤ) (entries : Option (List TfDirent)) (batches : List (List TfDirent))
    → same_name path (b'/' ∷ []) ≡ false
    → split_path path ≡ some (parent, name)
    → tf_cmd_dir_first usb zone (parent_dir parent) s ≡ some ((ret, entries), t)
    → Listing usb zone ret entries t batches
    → length batches < fuel
    → Answers (find_entry name (all_entries batches)) (tf_stat usb zone fuel path s)
unfolding tf_stat
tf_stat-Answers usb zone fuel path parent name s t ret entries batches below splits starts listing
      enough =
    let run = stat_rounds-Answers usb zone fuel name listing enough in
    record { after = run.after; returns = ground (arith, below, splits, starts, run.returns) }
