-- ===== src/Search/Proc/Place.antt =====
-- The device that the loop of usb_io_util.c finds in the text of /proc/bus/usb/devices.
use libtopfield.Base.{
  ℕ, suc, ◌+◌, ◌-◌, ◌<◌, ◌≤◌, ◌≡◌, refl, ap, sym, ◌∙◌, arith, true, false, List, [], ◌∷◌, Option,
  none, some, length, get_elem?, ◌==◌, ◌&&◌, ◌||◌, if◌then◌else◌, Bool-cases, inl, inr,
}
use libtopfield.Base.Int.{ℤ, pos, ◌==ℤ◌}
use libtopfield.Search.Proc.Scanf.{sscanf, topology_format, product_format}
use libtopfield.Search.Proc.{Search, store_two, is_product, scan_lines, find_device, lines_of}

-- A device of the listing.
pub record ProcDevice : Type 0 where
  pub bus : ℕ
  pub device : ℕ
  pub id_vendor : ℕ
  pub id_product : ℕ

-- The lines, behind a topology line for the place `at`, describe the devices: a product line
-- belongs to the topology line before it, and all other lines say nothing.
pub data Describes : Option (ℕ × ℕ) → List (List ℕ) → List ProcDevice → Type 0 where
  ends : (at : Option (ℕ × ℕ)) → Describes at [] []
  topology :
      (at : Option (ℕ × ℕ)) (bus device : ℕ) (line : List ℕ) (lines : List (List ℕ))
      (devices : List ProcDevice)
      → 0 < bus
      → 0 < device
      → sscanf topology_format line ≡ pos bus ∷ pos device ∷ []
      → Describes (some (bus, device)) lines devices
      → Describes at (line ∷ lines) devices
  product :
      (bus device id_vendor id_product : ℕ) (line : List ℕ) (lines : List (List ℕ))
      (devices : List ProcDevice)
      → sscanf topology_format line ≡ []
      → sscanf product_format line ≡ pos id_vendor ∷ pos id_product ∷ []
      → Describes (some (bus, device)) lines devices
      → Describes (some (bus, device)) (line ∷ lines) (
          record { bus = bus; device = device; id_vendor = id_vendor; id_product = id_product }
          ∷ devices)
  other :
      (at : Option (ℕ × ℕ)) (line : List ℕ) (lines : List (List ℕ)) (devices : List ProcDevice)
      → sscanf topology_format line ≡ []
      → sscanf product_format line ≡ []
      → Describes at lines devices
      → Describes at (line ∷ lines) devices

-- The places of the devices with the vendor and product, in order.
unfoldable pub places : ℕ → ℕ → List ProcDevice → List (ℤ × ℤ)
places vendor_id product_id [] = []
places vendor_id product_id (d ∷ devices) =
    let rest = places vendor_id product_id devices in
    if (d.id_vendor == vendor_id) && (d.id_product == product_id)
    then (pos d.bus, pos d.device) ∷ rest
    else rest

-- The variables of the loop behind a topology line.
abbrev bus_of : Option (ℕ × ℕ) → ℤ
bus_of none = pos 0
bus_of (some (bus, device)) = pos bus

abbrev device_of : Option (ℕ × ℕ) → ℤ
device_of none = pos 0
device_of (some (bus, device)) = pos device

abbrev variables : Option (ℕ × ℕ) → ℕ → Search
variables at count = record { bus = bus_of at; device = device_of at; count = count }

-- Places are never 0.
abbrev IsPlace : Option (ℕ × ℕ) → Type 0
IsPlace none = Unit
IsPlace (some (bus, device)) = (0 < bus) × (0 < device)

module _ (vendor_id product_id index : ℕ) where
  abbrev search : Search → List (List ℕ) → Option (ℤ × ℤ)
  search = scan_lines (is_product vendor_id product_id) index

  past_topology :
      (s : Search) (bus device : ℕ) (line : List ℕ) (lines : List (List ℕ))
      → sscanf topology_format line ≡ pos bus ∷ pos device ∷ []
      → search s (line ∷ lines)
        ≡ search (record { bus = pos bus; device = pos device; count = s.count }) lines
  unfolding scan_lines store_two
  past_topology s bus device line lines reads = rw reads refl

  past_other :
      (s : Search) (line : List ℕ) (lines : List (List ℕ))
      → sscanf topology_format line ≡ []
      → is_product vendor_id product_id line ≡ false
      → search s (line ∷ lines) ≡ search s lines
  unfolding scan_lines store_two
  past_other s line lines reads unwanted =
      elim (Bool-cases ((s.bus ==ℤ pos 0) || (s.device ==ℤ pos 0))) [
        | inl before ↦ rw (reads, before) refl
        | inr behind ↦ rw (reads, behind, unwanted) refl
      ]

  at_product :
      (bus device count : ℕ) (line : List ℕ) (lines : List (List ℕ))
      → 0 < bus
      → 0 < device
      → sscanf topology_format line ≡ []
      → is_product vendor_id product_id line ≡ true
      → search (variables (some (bus, device)) count) (line ∷ lines) ≡ (
          let counted = search (variables (some (bus, device)) (count + 1)) lines in
          if count == index then some (pos bus, pos device) else counted)
  unfolding scan_lines store_two
  at_product bus device count line lines some_bus some_device reads wanted =
      rw (reads, wanted) (ground (arith, some_bus, some_device))

  product_line :
      (v p : ℕ) (line : List ℕ)
      → sscanf product_format line ≡ pos v ∷ pos p ∷ []
      → is_product vendor_id product_id line ≡ ((v == vendor_id) && (p == product_id))
  unfolding is_product store_two
  product_line v p line reads = rw reads refl

  no_product_line :
      (line : List ℕ)
      → sscanf product_format line ≡ []
      → is_product vendor_id product_id line ≡ false
  unfolding is_product store_two
  no_product_line line reads = rw reads refl

  abbrev listed : ℕ → ℕ → ℕ → ℕ → ProcDevice
  listed bus device v p = record { bus = bus; device = device; id_vendor = v; id_product = p }

  places_takes :
      (bus device v p : ℕ) (devices : List ProcDevice)
      → ((v == vendor_id) && (p == product_id)) ≡ true
      → places vendor_id product_id (listed bus device v p ∷ devices)
        ≡ (pos bus, pos device) ∷ places vendor_id product_id devices
  unfolding places
  places_takes bus device v p devices this = rw this refl

  places_skips :
      (bus device v p : ℕ) (devices : List ProcDevice)
      → ((v == vendor_id) && (p == product_id)) ≡ false
      → places vendor_id product_id (listed bus device v p ∷ devices)
        ≡ places vendor_id product_id devices
  unfolding places
  places_skips bus device v p devices unlike = rw unlike refl

  -- A wanted device is the one that is looked for, or the search goes on behind it.
  counts :
      (at : Option (ℕ × ℕ)) (place : ℤ × ℤ) (count : ℕ) (lines : List (List ℕ))
      (rest : List (ℤ × ℤ))
      → count ≤ index
      → (count + 1 ≤ index
          → search (variables at (count + 1)) lines ≡ get_elem? rest (index - (count + 1)))
      → (let counted = search (variables at (count + 1)) lines in
          if count == index then some place else counted)
        ≡ get_elem? (place ∷ rest) (index - count)
  counts at place count lines rest early goes_on = elim (Bool-cases (count == index)) [
    | inl here ↦
        let none_left : index - count ≡ 0 = ground (arith, here) in rw (here, none_left) refl
    | inr on ↦
        let later : count + 1 ≤ index = ground (arith, on, early) in
        let one_more : index - count ≡ suc (index - (count + 1)) = omega (arith, later) in
        rw (on, one_more) (goes_on later)
  ]

  -- The rest of the search, with `count` wanted devices behind it.
  search-Describes :
      (at : Option (ℕ × ℕ)) (lines : List (List ℕ)) (devices : List ProcDevice)
      → Describes at lines devices
      → (count : ℕ) → IsPlace at
      → count ≤ index
      → search (variables at count) lines
        ≡ get_elem? (places vendor_id product_id devices) (index - count)
  search-Describes at _ _ (Describes.ends _) count place early = unfold scan_lines places in refl
  search-Describes at _ _
        (Describes.topology _ bus device line lines devices some_bus some_device reads d) count
        place early =
      past_topology (variables at count) bus device line lines reads
      ∙ search-Describes (some (bus, device)) lines devices d count (some_bus, some_device) early
  search-Describes at _ _ (Describes.other _ line lines devices no_topology no_product d) count
        place early =
      past_other (variables at count) line lines no_topology (no_product_line line no_product)
      ∙ search-Describes at lines devices d count place early
  search-Describes _ _ _ (Describes.product bus device v p line lines devices no_topology reads d)
        count place early =
      let wanted = product_line v p line reads in
      elim (Bool-cases ((v == vendor_id) && (p == product_id))) [
        | inr unlike ↦
            past_other (variables (some (bus, device)) count) line lines no_topology
              (wanted ∙ unlike)
            ∙ search-Describes (some (bus, device)) lines devices d count place early
            ∙ ap (λ l. get_elem? l (index - count))
                (sym (places_skips bus device v p devices unlike))
        | inl this ↦
            at_product bus device count line lines place.0 place.1 no_topology (wanted ∙ this)
            ∙ counts (some (bus, device)) (pos bus, pos device) count lines
                (places vendor_id product_id devices) early
                (search-Describes (some (bus, device)) lines devices d (count + 1) place)
            ∙ ap (λ l. get_elem? l (index - count)) (sym (places_takes bus device v p devices this))
      ]

-- The loop of `open_usb_dev` finds, in any text of /proc/bus/usb/devices, the place of the wanted
-- device with the index that is asked for, counted from 0 in the order of the text, and none if
-- there are not so many. Condition: the lines describe the devices, a product line standing behind
-- the topology line of its device.
pub find_device-nth :
    (vendor_id product_id index : ℕ) (text : List ℕ) (devices : List ProcDevice)
    → Describes none (lines_of (length text) text) devices
    → find_device vendor_id product_id index text
      ≡ get_elem? (places vendor_id product_id devices) index
unfolding find_device
find_device-nth vendor_id product_id index text devices d =
    search-Describes vendor_id product_id index none (lines_of (length text) text) devices d 0 tt
      (omega arith)
    ∙ ap (get_elem? (places vendor_id product_id devices))
        (let e : index - 0 ≡ index = omega arith in e)
