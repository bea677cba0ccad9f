-- ===== src/Search/Proc/Handles.antt =====
-- The descriptors that `open_usb_dev` and `close_usb_dev` of usb_io_util.c hold.
use libtopfield.Base.{
  ℕ, ◌+◌, ◌-◌, ◌≡◌, refl, ap, ◌∙◌, arith, Bool, true, false, List, Option, none, some,
  if◌then◌else◌, ◌⊎◌, inl, inr, Option-cases,
}
use libtopfield.Base.Int.{ℤ}
use libtopfield.Daemon.{failed}
use libtopfield.Search.Proc.{
  Usbfs, failed, find_device, device_path, open_at, proc_open_usb_dev, proc_close_usb_dev,
}

-- What the kernel promises of the open descriptors and of the claim on the interface.
pub record Keeps {W : Type 0} (usbfs : Usbfs W) (files : W → ℕ) (claimed : W → ℤ → Bool)
    : Type 0 where
  pub list_opens :
      (w : W)
      → files (usbfs.open_list w).1
        ≡ (elim (usbfs.open_list w).0 [ none ↦ files w | some text ↦ files w + 1 ])
  pub list_closes : (w : W) → files (usbfs.close_list w) ≡ files w - 1
  pub opens :
      (w : W) (path : List ℕ)
      → files (usbfs.open_device w path).1
        ≡ (if failed (usbfs.open_device w path).0 then files w else files w + 1)
  pub reset_keeps : (w : W) (fd : ℤ) → files (usbfs.reset w fd).1 ≡ files w
  pub claim_keeps : (w : W) (fd : ℤ) → files (usbfs.claim_interface w fd).1 ≡ files w
  pub claims :
      (w : W) (fd : ℤ)
      → failed (usbfs.claim_interface w fd).0 ≡ false
      → claimed (usbfs.claim_interface w fd).1 fd ≡ true
  pub set_keeps : (w : W) (fd : ℤ) → files (usbfs.set_interface w fd).1 ≡ files w
  pub set_claimed : (w : W) (fd : ℤ) → claimed (usbfs.set_interface w fd).1 fd ≡ claimed w fd
  pub release_keeps : (w : W) (fd : ℤ) → files (usbfs.release_interface w fd).1 ≡ files w
  pub closes : (w : W) (fd : ℤ) → files (usbfs.close w fd).1 ≡ files w - 1

-- What holds of a call that opens a device, by its result.
record Settles {W : Type 0} (usbfs : Usbfs W) (files : W → ℕ) (claimed : W → ℤ → Bool) (w : W)
    (r : Option ℤ × W) : Type 0 where
  pub opened : (fd : ℤ) → r.0 ≡ some fd → files (r.1) ≡ files w + 1
  pub claim : (fd : ℤ) → r.0 ≡ some fd → claimed (r.1) fd ≡ true
  pub closing : (fd : ℤ) → r.0 ≡ some fd → files (proc_close_usb_dev usbfs fd (r.1)) ≡ files w
  pub refused : r.0 ≡ none → files (r.1) ≡ files w

-- How the call ends: with a descriptor, one more open file with the interface claimed on it, that
-- `close_usb_dev` closes, or with none and as many open files as before.
pub record Holds {W : Type 0} (usbfs : Usbfs W) (files : W → ℕ) (claimed : W → ℤ → Bool) (w : W)
    (r : Option ℤ × W) : Type 0 where
  pub outcome :
      ((fd : ℤ) × (r.0 ≡ some fd)
        × (files (r.1) ≡ files w + 1)
        × (claimed (r.1) fd ≡ true)
        × (files (proc_close_usb_dev usbfs fd (r.1)) ≡ files w))
      ⊎ ((r.0 ≡ none) × (files (r.1) ≡ files w))

open_at-Settles :
    {W : Type 0} (usbfs : Usbfs W) (files : W → ℕ) (claimed : W → ℤ → Bool)
    → Keeps usbfs files claimed
    → (path : List ℕ) (w : W) → Settles usbfs files claimed w (open_at usbfs path w)
unfolding open_at proc_close_usb_dev
open_at-Settles usbfs files claimed k path w =
    let fd = usbfs.open_device w path in
    let was_reset = usbfs.reset (fd.1) (fd.0) in
    let claim = usbfs.claim_interface (was_reset.1) (fd.0) in
    let prepared = usbfs.set_interface (claim.1) (fd.0) in
    let opens = k.opens w path in
    let reset_keeps = k.reset_keeps (fd.1) (fd.0) in
    let claim_keeps = k.claim_keeps (was_reset.1) (fd.0) in
    let set_keeps = k.set_keeps (claim.1) (fd.0) in
    let claims = k.claims (was_reset.1) (fd.0) in
    let set_claimed = k.set_claimed (claim.1) (fd.0) in
    let released = k.release_keeps (prepared.1) (fd.0) in
    let close_1 = k.closes (was_reset.1) (fd.0) in
    let close_2 = k.closes (claim.1) (fd.0) in
    let close_3 = k.closes (prepared.1) (fd.0) in
    let close_4 = k.closes ((usbfs.release_interface (prepared.1) (fd.0)).1) (fd.0) in
    record {
      opened = λ f. ground (arith, opens, reset_keeps, claim_keeps, set_keeps);
      claim = λ f. ground (arith, claims, set_claimed);
      closing = λ f. ground (arith, opens, reset_keeps, claim_keeps, set_keeps, released, close_4);
      refused =
          ground (arith, opens, reset_keeps, claim_keeps, set_keeps, close_1, close_2, close_3);
    }

-- A step that leaves the count of open files as it was comes before.
Settles-behind :
    {W : Type 0} (usbfs : Usbfs W) (files : W → ℕ) (claimed : W → ℤ → Bool) (w v : W)
    (r : Option ℤ × W)
    → files v ≡ files w
    → Settles usbfs files claimed v r
    → Settles usbfs files claimed w r
Settles-behind usbfs files claimed w v r same s = record {
  opened = λ fd e. s.opened fd e ∙ ap (λ n. n + 1) same;
  claim = s.claim;
  closing = λ fd e. s.closing fd e ∙ same;
  refused = λ e. s.refused e ∙ same;
}

no_handle :
    {W : Type 0} (usbfs : Usbfs W) (files : W → ℕ) (claimed : W → ℤ → Bool) (w : W)
    → Settles usbfs files claimed w (none, w)
no_handle usbfs files claimed w = record {
  opened = λ fd e. cc;
  claim = λ fd e. cc;
  closing = λ fd e. cc;
  refused = λ e. refl;
}

found-Settles :
    {W : Type 0} (usbfs : Usbfs W) (files : W → ℕ) (claimed : W → ℤ → Bool)
    → Keeps usbfs files claimed
    → (found : Option (ℤ × ℤ)) (w : W)
    → Settles usbfs files claimed w
        (elim found [ none ↦ (none, w) | some place ↦ open_at usbfs (device_path place) w ])
found-Settles usbfs files claimed k none w = no_handle usbfs files claimed w
found-Settles usbfs files claimed k (some place) w =
    open_at-Settles usbfs files claimed k (device_path place) w

-- The files that are open once the list has been opened, read and closed, or has not opened.
searched-Settles :
    {W : Type 0} (usbfs : Usbfs W) (files : W → ℕ) (claimed : W → ℤ → Bool)
    → Keeps usbfs files claimed
    → (vendor_id product_id index : ℕ) (listing : Option (List ℕ)) (w v : W)
    → files v ≡ (elim listing [ none ↦ files w | some text ↦ files w + 1 ])
    → Settles usbfs files claimed w (elim listing [
      | none ↦ (none, v)
      | some text ↦ elim (find_device vendor_id product_id index text) [
        | none ↦ (none, usbfs.close_list v)
        | some place ↦ open_at usbfs (device_path place) (usbfs.close_list v)
      ]
    ])
searched-Settles usbfs files claimed k vendor_id product_id index none w v opened =
    Settles-behind usbfs files claimed w v (none, v) opened (no_handle usbfs files claimed v)
searched-Settles usbfs files claimed k vendor_id product_id index (some text) w v opened =
    let found = find_device vendor_id product_id index text in
    let closed : files (usbfs.close_list v) ≡ files w = omega (arith, opened, k.list_closes v) in
    Settles-behind usbfs files claimed w (usbfs.close_list v) _ closed
      (found-Settles usbfs files claimed k found (usbfs.close_list v))

-- On every way out of `open_usb_dev` without libusb, with the opening and closing of the list of
-- devices counted: a descriptor that is given is one more open
-- file, with the interface claimed on it, and `close_usb_dev` closes it; where none is given, as
-- many files are open as before. Condition: a kernel that opens, claims, releases and closes as
-- documented.
pub proc_open_usb_dev-Holds :
    {W : Type 0} (usbfs : Usbfs W) (files : W → ℕ) (claimed : W → ℤ → Bool)
    → Keeps usbfs files claimed
    → (vendor_id product_id index : ℕ) (w : W)
    → Holds usbfs files claimed w (proc_open_usb_dev usbfs vendor_id product_id index w)
unfolding proc_open_usb_dev
proc_open_usb_dev-Holds usbfs files claimed k vendor_id product_id index w =
    let r = proc_open_usb_dev usbfs vendor_id product_id index w in
    let s =
      searched-Settles usbfs files claimed k vendor_id product_id index (usbfs.open_list w).0 w
        (usbfs.open_list w).1 (k.list_opens w) in
    elim (Option-cases (r.0)) [
      | inl given ↦ record { outcome = inr (given, s.refused given) }
      | inr (fd, given) ↦ record {
        outcome = inl (fd, given, s.opened fd given, s.claim fd given, s.closing fd given);
      }
    ]
