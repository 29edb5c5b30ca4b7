-- ===== src/Chip/Detect/Choice.antt =====
-- The platform that detection settles on.
use ipctool.Base.{
  ℕ, Bool, true, false, Option, none, some, List, [], ◌∷◌, ◌≡◌, ◌⊎◌, inl, inr, refl, sym, ap,
  Bool-cases, if◌then◌else◌, ◌∙◌,
}
use ipctool.Base.Bytes.{Bytes, starts_with}
use ipctool.Chip.Detect.{
  Platform, CpuLayer, Ident, Manufacturer, Arch, arm, mips, aarch64, manufacturers, or_keep,
  run_detect, run_setup, hardware, matches, try_manufacturers, generic_detect_cpu, detect_and_set,
  goke, arm_system, by_uart, hw_detect_system, get_uart0_address,
}

-- The detection is the work of a row of the table: it matches the hardware's text, its platform is set
-- up, and its vendor, or else the text, is the manufacturer.
abbrev pub ServedBy : {S : Type 0} → List Manufacturer → Bytes → Ident S → Type 0
ServedBy [] text after = ⊥
ServedBy (m ∷ ms) text after =
    (matches m.pattern text ≡ true)
      × (after.hal ≡ some m.setup_hal_fn)
      × (after.chip_manufacturer ≡ or_keep text m.override_vendor)
    ⊎ ServedBy ms text after

-- The same of an answer: a miss sets up no platform and keeps the text.
abbrev pub Served :
    {S : Type 0} → List Manufacturer → Bytes → Option Platform → Bool × Ident S → Type 0
Served ms text before (false, after) = (after.hal ≡ before) × (after.chip_manufacturer ≡ text)
Served ms text before (true, after) = ServedBy ms text after

module _ {S : Type 0} where
  Served-later :
      (m : Manufacturer) (ms : List Manufacturer) (text : Bytes) (before : Option Platform)
      (r : Bool × Ident S)
      → Served ms text before r
      → Served (m ∷ ms) text before r
  Served-later m ms text before (false, after) h = h
  Served-later m ms text before (true, after) h = inr h

module _ {S : Type 0} (layer : CpuLayer S) where
  try_manufacturers-Served :
      (ms : List Manufacturer) (c : Ident S) (text : Bytes) (before : Option Platform)
      → c.chip_manufacturer ≡ text
      → c.hal ≡ before
      → Served ms text before (try_manufacturers layer ms c)
  unfolding try_manufacturers run_detect run_setup
  try_manufacturers-Served [] c text before e h = (h, e)
  try_manufacturers-Served (m ∷ ms) c text before e h =
      let r = run_detect layer m.detect_fn 0 c in
      elim (Bool-cases (matches m.pattern c.chip_manufacturer)) [
        | inl fits ↦ elim (Bool-cases r.0) [
          | inl hit ↦
              rw (fits, hit)
                (inl (
                  ap (λ t. matches m.pattern t) (sym e) ∙ fits,
                  refl,
                  ap (λ t. or_keep t m.override_vendor) e,
                ))
          | inr miss ↦
              rw (fits, miss)
                (Served-later m ms text before _ (try_manufacturers-Served ms r.1 text before e h))
        ]
        | inr passed ↦
            rw passed
              (Served-later m ms text before _ (try_manufacturers-Served ms c text before e h))
      ]

  -- `generic_detect_cpu` answers true only by a row of the table that matches the hardware's text in
  -- /proc/cpuinfo: that row's platform is set up, and its vendor, or else the text, becomes the
  -- manufacturer. Where it answers false, no platform is set up and the text is the manufacturer.
  pub generic_detect_cpu-Served :
      (arch : Arch) (c : Ident S)
      → Served
          (manufacturers arch)
          (hardware layer c.system)
          c.hal
          (generic_detect_cpu layer arch c)
  unfolding generic_detect_cpu
  generic_detect_cpu-Served arch c =
      try_manufacturers-Served (manufacturers arch) _ (hardware layer c.system) c.hal refl refl

-- True goes with a platform that is set up, and false with the one there was.
pub Equipped : {S : Type 0} → Option Platform → Bool × Ident S → Type 0
Equipped before (false, after) = after.hal ≡ before
Equipped before (true, after) = (p : Platform) × (after.hal ≡ some p)

module _ {S : Type 0} where
  ServedBy-Equipped :
      (ms : List Manufacturer) (text : Bytes) (after : Ident S)
      → ServedBy ms text after
      → (p : Platform) × (after.hal ≡ some p)
  ServedBy-Equipped [] text after h = absurd h
  ServedBy-Equipped (m ∷ ms) text after (inl h) = (m.setup_hal_fn, h.1)
  ServedBy-Equipped (m ∷ ms) text after (inr h) = ServedBy-Equipped ms text after h

  Served-Equipped :
      (ms : List Manufacturer) (text : Bytes) (before : Option Platform) (r : Bool × Ident S)
      → Served ms text before r
      → Equipped before r
  unfolding Equipped
  Served-Equipped ms text before (false, after) h = h.0
  Served-Equipped ms text before (true, after) h = ServedBy-Equipped ms text after h

  if-Equipped :
      (b : Bool) (before : Option Platform) (r s : Bool × Ident S)
      → Equipped before r
      → Equipped before s
      → Equipped before (if b then r else s)
  if-Equipped true before r s h k = h
  if-Equipped false before r s h k = k

  goke-Equipped :
      (before : Option Platform) (r : Bool × Ident S) → Equipped before r → Equipped before (goke r)
  unfolding goke Equipped
  goke-Equipped before (false, after) h = h
  goke-Equipped before (true, after) h =
      if-Equipped (starts_with (b'7' ∷ []) after.chip_name) before _ _ h h

module _ {S : Type 0} (layer : CpuLayer S) (c : Ident S) where
  generic-Equipped : (arch : Arch) → Equipped c.hal (generic_detect_cpu layer arch c)
  generic-Equipped arch =
      Served-Equipped (manufacturers arch) (hardware layer c.system) c.hal _
        (generic_detect_cpu-Served layer arch c)

  detect_and_set-Equipped :
      (manufacturer : Bytes) (p : Platform) (base : ℕ)
      → Equipped c.hal (detect_and_set layer manufacturer p base c)
  unfolding detect_and_set run_detect run_setup Equipped
  detect_and_set-Equipped manufacturer p base =
      if-Equipped (run_detect layer p base c).0 c.hal _ _ (p, refl) refl

  arm_system-Equipped : (uart : ℕ) → Equipped c.hal (arm_system layer uart c)
  unfolding arm_system
  arm_system-Equipped uart =
      search (if-Equipped, goke-Equipped, detect_and_set-Equipped, generic-Equipped) depth 20

  by_uart-Equipped : (arch : Arch) (uart : Option ℕ) → Equipped c.hal (by_uart layer arch uart c)
  unfolding by_uart
  by_uart-Equipped arch none = generic-Equipped arch
  by_uart-Equipped mips (some uart) =
      search (if-Equipped, detect_and_set-Equipped, generic-Equipped) depth 20
  by_uart-Equipped arm (some uart) =
      search (if-Equipped, detect_and_set-Equipped, arm_system-Equipped) depth 20
  by_uart-Equipped aarch64 (some uart) =
      search (if-Equipped, detect_and_set-Equipped, generic-Equipped) depth 20

  -- On every architecture `hw_detect_system` that answers true has set up a platform's access layer,
  -- and one that answers false has left the one that there was.
  pub hw_detect_system-Equipped : (arch : Arch) → Equipped c.hal (hw_detect_system layer arch c)
  unfolding hw_detect_system
  hw_detect_system-Equipped arch = by_uart-Equipped arch (get_uart0_address layer c.system)
