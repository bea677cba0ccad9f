-- ===== src/Dir/Entries.antt =====
-- The number of entries that `get_dirents` (tf_io.c) stores.
use libtopfield.Base.{
  zero, suc, drop, length, map, [], ◌∷◌, none, Option, ◌⊎◌, ◌*◌, ap, drop-drop, ℕ, ◌+◌, ◌-◌, ◌/◌,
  ◌%◌, ◌^◌, dec_lt, ◌<◌, ◌≤◌, ◌≡◌, refl, ◌∙◌, arith, Bool, List, some, inl, inr, Option-cases,
}
use libtopfield.Base.Int.{ℤ}
use libtopfield.Packet.{packet_size}
use libtopfield.Handle.{Usb, State, >>=-some}
use libtopfield.Io.{Reply, tf_get_response, unpack_reply, check_reply, reply_of}
use libtopfield.Bytes.{get_u16_raw, c_string}
use libtopfield.Err
use libtopfield.Msg
use libtopfield.Dirent.{TfDirent, unpack_dirent, typefile_size}
use libtopfield.Dir.{max_dir_entries, unpack_dirents, entry_count, rounds, get_dirents}
use libtopfield.Mjd.{TimeZone}

-- The difference of a length and that of a header, in 64 bits.
wrapped_small : (len : ℕ) → len < 8 → (len + 2 ^ 64 - 8) % 2 ^ 64 / 114 % 2 ^ 32 ≡ 3089362440
wrapped_small len h = omega arith

wrapped_large :
    (len : ℕ)
    → len < 0x10000
    → 8 ≤ len
    → (len + 2 ^ 64 - 8) % 2 ^ 64 / 114 % 2 ^ 32 ≡ (len - 8) / 114
wrapped_large len h k = omega arith

pub rounds-entry_count :
    (len : ℕ) → len < 0x10000 → rounds (entry_count len) ≡ some ((len - 8) / 114)
unfolding rounds entry_count
rounds-entry_count len h = elim (dec_lt len 8) [
  | yes small ↦
      let none_left : (len - 8) / 114 ≡ 0 = omega (arith, small) in
      rw (wrapped_small len small, none_left) refl
  | no large ↦ let e = wrapped_large len h (omega (arith, large)) in ground (arith, e)
]

few_rounds : (len : ℕ) → len < 0x10000 → (len - 8) / 114 ≤ max_dir_entries
few_rounds len h = omega arith

get_u16_raw-lt : (bytes : List ℕ) → get_u16_raw bytes < 0x10000
unfolding get_u16_raw
get_u16_raw-lt bytes = omega arith

unpack_reply-length :
    (nocrc : Bool) (len : ℕ) (buf : List ℕ) (ret : ℤ) (reply : Reply)
    → unpack_reply nocrc len buf ≡ some (ret, reply)
    → reply.length ≡ len
unfolding unpack_reply check_reply reply_of
unpack_reply-length nocrc len buf ret reply e = ground (arith, e)

pub tf_get_response-length :
    {W : Type 0} (usb : Usb W) (s t : State W) (ret : ℤ) (reply : Reply)
    → tf_get_response usb s ≡ some ((ret, reply), t)
    → reply.length < 0x10000
unfolding tf_get_response
tf_get_response-length usb s t ret reply e =
    let got = usb.bulk_read s.world 0x82 packet_size s.tf.timeout in
    let small = get_u16_raw-lt (got.1) in
    elim (Option-cases (unpack_reply s.tf.nocrc (get_u16_raw (got.1)) (got.1))) [
      | inl n ↦ ground (arith, n)
      | inr ((c, r), x) ↦
          let len = unpack_reply-length s.tf.nocrc (get_u16_raw (got.1)) (got.1) c r x in
          ground (arith, x, len, small)
    ]

-- What the descriptor with an index gives, counted from the start of the data.
abbrev pub descriptor_at : TimeZone → List ℕ → ℕ → Option TfDirent
descriptor_at zone body i = unpack_dirent zone (drop (114 * i) body)

-- The name in the descriptor with an index, up to the first zero byte wherever that stands.
abbrev pub name_at : List ℕ → ℕ → List ℕ
name_at body i = c_string (drop 14 (drop (114 * i) body))

long_name :
    (zone : TimeZone) (typefile : List ℕ)
    → unpack_dirent zone typefile ≡ none
    → 95 ≤ length (c_string (drop 14 typefile))
unfolding unpack_dirent
long_name zone typefile e = ground (arith, e)

-- The `n` numbers from `k` on.
abbrev pub indices : ℕ → ℕ → List ℕ
indices k zero = []
indices k (suc n) = k ∷ indices (suc k) n

-- Either the first `n` descriptors behind index `k` all give an entry, or one of them has too long a name.
abbrev Unpacked : TimeZone → List ℕ → ℕ → ℕ → Option (List TfDirent) → Type 0
Unpacked zone body k n r =
    ((ds : List TfDirent) × (r ≡ some ds)
      × (map (descriptor_at zone body) (indices k n) ≡ map some ds))
    ⊎ ((i : ℕ) × (i < k + n) × (95 ≤ length (name_at body i)) × (r ≡ none))

unpack_dirents-Unpacked :
    (zone : TimeZone) (body : List ℕ) (k n : ℕ)
    → Unpacked zone body k n (unpack_dirents zone n (drop (114 * k) body))
unfolding unpack_dirents
unpack_dirents-Unpacked zone body k zero = inl ([], refl, refl)
unpack_dirents-Unpacked zone body k (suc n) =
    let here = drop (114 * k) body in
    let skips : drop typefile_size here ≡ drop (114 * suc k) body =
      drop-drop 114 (114 * k) body ∙ ap (λ at. drop at body) (omega arith) in
    elim (Option-cases (descriptor_at zone body k)) [
      | inl bad ↦ inr (k, omega arith, long_name zone here bad, ground (arith, bad))
      | inr (d, good) ↦ elim (unpack_dirents-Unpacked zone body (suc k) n) [
        | inl (ds, e, same) ↦ inl (d ∷ ds, ground (arith, good, skips, e), rw (good, same) refl)
        | inr (i, lt, bad, e) ↦ inr (i, omega (arith, lt), bad, ground (arith, good, skips, e))
      ]
    ]

-- What `get_dirents` makes of `n` descriptors: an entry of each, in order, or a fault where one of
-- them has a name that `strcpy` copies past the end of the entry's.
abbrev pub StoresEntries :
    {W : Type 0}
    → TimeZone
    → List ℕ
    → ℕ
    → State W
    → Option ((ℤ × Option (List TfDirent)) × State W)
    → Type 0
StoresEntries zone body n t r =
    ((ds : List TfDirent) × (r ≡ some ((Err.ok, some ds), t))
      × (map (descriptor_at zone body) (indices 0 n) ≡ map some ds))
    ⊎ ((i : ℕ) × (i < n) × (95 ≤ length (name_at body i)) × (r ≡ none))

-- After a DIRENT reply of whatever length, `get_dirents` returns 0 with what `unpack_dirent` makes of
-- each of the whole descriptors behind the header, in order, and with no entry where the length is
-- below that of a header. They are no more than MAX_DIR_ENTRIES, so that the loop stays inside the array of entries.
-- The one fault is a name of 95 or more characters before its zero byte, which `strcpy` copies.
pub get_dirents-bounded :
    {W : Type 0} (usb : Usb W) (zone : TimeZone) (s t : State W) (reply : Reply)
    → tf_get_response usb s ≡ some ((Err.ok, reply), t)
    → reply.cmd ≡ Msg.hdd_dirent
    → StoresEntries zone reply.body ((reply.length - 8) / 114) t (get_dirents usb zone s)
      × ((reply.length - 8) / 114 ≤ max_dir_entries)
unfolding get_dirents
get_dirents-bounded usb zone s t reply got command =
    let small = tf_get_response-length usb s t Err.ok reply got in
    let count = rounds-entry_count reply.length small in
    let starts = >>=-some (tf_get_response usb) _ s got in
    (
      elim (unpack_dirents-Unpacked zone reply.body 0 ((reply.length - 8) / 114)) [
        | inl (ds, e, same) ↦ inl (ds, starts ∙ ground (arith, command, count, e), same)
        | inr (i, lt, bad, e) ↦
            inr (i, omega (arith, lt), bad, starts ∙ ground (arith, command, count, e))
      ],
      few_rounds reply.length small,
    )
