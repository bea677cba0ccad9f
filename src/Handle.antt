-- ===== src/Handle.antt =====
-- tf_open.h, tf_io.h and usb_io.h: the handle, the error codes and the USB transfers that the
-- protocol calls.
--
-- The transfers stand behind the record `Usb`, over a world `W` that holds the device and all else
-- outside the process: usb_io.c implements it over the kernel's ioctl (see `Transfer`), libusb does
-- in the other build. A command runs in `M W`: the handle and the world pass from call to call, and
-- `none` is a fault, an access outside the packet.
use libtopfield.Base.{ℕ, Bool, List, Option, none, some, ◌≡◌, inl, inr, Option-cases}
use libtopfield.Base.Int.{ℤ}

-- `dev` says whether the handle is connected, `buf` whether the transfer buffer is allocated.
pub record TfHandle : Type 0 where
  pub timeout : ℕ
  pub trace_level : ℕ
  pub nocrc : Bool
  pub error : ℤ
  pub lock_fd : ℤ
  pub dev : Bool
  pub pending : Bool
  pub buf : Bool

abbrev pub default_timeout : ℕ
default_timeout = 11000

-- `bulk_write w ep bytes length timeout` sends `length` bytes from memory that starts with `bytes`;
-- what lies behind those is not determined. `bulk_read w ep size timeout` returns the count and the
-- bytes that arrived; the rest of the caller's buffer is zero.
pub record Usb (W : Type 0) : Type 0 where
  pub bulk_write : W → ℕ → List ℕ → ℕ → ℕ → ℤ × W
  pub bulk_read : W → ℕ → ℕ → ℕ → ℤ × List ℕ × W
  pub sleep : W → ℕ → W

pub record State (W : Type 0) : Type 0 where
  pub tf : TfHandle
  pub world : W

abbrev pub M : Type 0 → Type 0 → Type 0
M W A = State W → Option (A × State W)

abbrev pub pure : {W A : Type 0} → A → M W A
pure a s = some (a, s)

abbrev pub fault : {W A : Type 0} → M W A
fault s = none

infixl 5 ◌>>=◌ ◌>>◌
abbrev pub ◌>>=◌ : {W A B : Type 0} → M W A → (A → M W B) → M W B
◌>>=◌ m f s = elim (m s) [ none ↦ none | some (a, s') ↦ f a s' ]

abbrev pub ◌>>◌ : {W A B : Type 0} → M W A → M W B → M W B
m >> k = m >>= λ _. k

-- A part of the packet code, which has no state.
abbrev pub lift : {W A : Type 0} → Option A → M W A
lift none s = none
lift (some a) s = some (a, s)

abbrev pub get_tf : {W : Type 0} → M W TfHandle
get_tf s = some (s.tf, s)

abbrev pub modify_tf : {W : Type 0} → (TfHandle → TfHandle) → M W (Unit {0})
modify_tf f s = some (tt, record s { tf = f s.tf })

-- `sleep(n)`
abbrev pub wait : {W : Type 0} → Usb W → ℕ → M W (Unit {0})
wait usb n s = some (tt, record s { world = usb.sleep s.world n })

-- `tf->error = e; return e;`
abbrev pub set_error : {W : Type 0} → ℤ → M W ℤ
set_error e s = some (e, record s { tf = record (s.tf) { error = e } })

-- What a sequence that returns has done first.
pub >>=-eq-some :
    {W A B : Type 0} (m : M W A) (f : A → M W B) (s : State W) {r : B × State W}
    → (m >>= f) s ≡ some r
    → (a : A) × (t : State W) × (m s ≡ some (a, t)) × (f a t ≡ some r)
>>=-eq-some m f s h = elim (Option-cases (m s)) [
  | inl e ↦ cc
  | inr ((a, t), e) ↦ (a, t, e, rw (e, ◌>>=◌) at h)
]

pub >>=-some :
    {W A B : Type 0} (m : M W A) (f : A → M W B) (s : State W) {a : A} {t : State W}
    → m s ≡ some (a, t)
    → (m >>= f) s ≡ f a t
>>=-some m f s e = rw (e, ◌>>=◌)
