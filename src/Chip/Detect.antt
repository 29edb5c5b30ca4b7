-- ===== src/Chip/Detect.antt =====
-- src/chipid.c: `get_uart0_address`, `generic_detect_cpu`, `detect_and_set` and `hw_detect_system`.
-- The functions of src/hal that they call through pointers, `line_from_file` and `strtol` are the
-- record `CpuLayer`. Texts are shorter than the buffers that they are copied to.
pub mod Choice
use ipctool.Base.{
  ℕ, Bool, true, false, Option, none, some, List, [], ◌∷◌, ◌==◌, ◌&&◌, ◌||◌, if◌then◌else◌, String,
}
use ipctool.Base.Bytes.{Bytes, codes, starts_with}

-- The platforms: the first word of `hisi_detect_cpu`, `setup_hal_hisi` and the like.
pub data Platform : Type 0 where
  ingenic sstar mstar novatek gm fh rockchip xilinx bcm allwinner tegra hisi xm : Platform

-- What a detect function leaves behind: the chip's name and generation where it writes them.
pub record Detection (S : Type 0) : Type 0 where
  pub answer : Bool
  pub name : Option Bytes
  pub generation : Option ℕ
  pub state : S

-- Over the state of the system. `line_from_file` takes the file and the pattern.
pub record CpuLayer (S : Type 0) : Type 0 where
  pub line_from_file : S → Bytes → Bytes → Option Bytes
  pub strtol_16 : Bytes → ℕ
  pub detect_cpu : Platform → ℕ → S → Detection S
  pub setup_hal : Platform → S → S
  pub setup_hal_fallback : S → S

-- The statics of chipid.c, and the platform whose setup function ran last.
pub record Ident (S : Type 0) : Type 0 where
  pub system : S
  pub chip_generation : ℕ
  pub chip_name : Bytes
  pub chip_manufacturer : Bytes
  pub sysid : Bytes
  pub hal : Option Platform

-- manufacturers_t
pub record Manufacturer : Type 0 where
  pub pattern : Option Bytes
  pub detect_fn : Platform
  pub override_vendor : Option Bytes
  pub setup_hal_fn : Platform

-- What the program is compiled for.
pub data Arch : Type 0 where
  mips arm aarch64 : Arch

-- One line of the table: a pattern, and a name that overrides the vendor's.
row : Option String → Platform → Option String → Platform → Manufacturer
row pattern detect_fn vendor setup_hal_fn = record {
  pattern = text pattern;
  detect_fn = detect_fn;
  override_vendor = text vendor;
  setup_hal_fn = setup_hal_fn;
}
  where
    text : Option String → Option Bytes
    text none = none
    text (some s) = some (codes s)

-- `arm` and `aarch64` have a Novatek row each.
pub manufacturers : Arch → List Manufacturer
unfolding row
manufacturers mips =
    row (some "isvp") ingenic (some "Ingenic") ingenic
    ∷ row (some "ingenic") ingenic (some "Ingenic") ingenic
    ∷ []
manufacturers arm =
    row (some "SStar") sstar (some "SigmaStar") sstar
    ∷ row (some "MStar") mstar none sstar
    ∷ row (some "Novatek") novatek (some "Novatek") novatek
    ∷ row (some "Grain") gm (some "GrainMedia") gm
    ∷ row (some "FH") fh (some "Fullhan") fh
    ∷ row none rockchip (some "Rockchip") rockchip
    ∷ row (some "Xilinx") xilinx none xilinx
    ∷ row (some "BCM") bcm (some "Broadcom") bcm
    ∷ row none allwinner (some "Allwinner") allwinner
    ∷ []
manufacturers aarch64 =
    row none novatek (some "Novatek") novatek ∷ row none tegra (some "Nvidia") tegra ∷ []

pub or_keep {ℓ} : {A : Type ℓ} → A → Option A → A
or_keep old none = old
or_keep old (some new) = new

-- !pattern || !strncmp(pattern, chip_manufacturer, strlen(pattern))
pub matches : Option Bytes → Bytes → Bool
matches none text = true
matches (some pattern) text = starts_with pattern text

-- if (ret && *chip_name == '7') strcpy(chip_manufacturer, VENDOR_GOKE)
pub goke : {S : Type 0} → Bool × Ident S → Bool × Ident S
goke r =
    if r.0 && starts_with (b'7' ∷ []) r.1.chip_name
    then (r.0, record (r.1) { chip_manufacturer = codes "Goke" })
    else r

module _ {S : Type 0} (layer : CpuLayer S) where
  -- detect_fn(chip_name, base)
  pub run_detect : Platform → ℕ → Ident S → Bool × Ident S
  unfolding or_keep
  run_detect p base c =
      let r = layer.detect_cpu p base c.system in
      (
        r.answer,
        record c {
          system = r.state;
          chip_name = or_keep c.chip_name r.name;
          chip_generation = or_keep c.chip_generation r.generation;
        },
      )

  -- setup_hal_fn()
  pub run_setup : Platform → Ident S → Ident S
  run_setup p c = record c { system = layer.setup_hal p c.system; hal = some p }

  first_line : S → List Bytes → Bytes
  first_line s [] = codes "unknown"
  first_line s (p ∷ ps) =
      or_keep (first_line s ps) (layer.line_from_file s (codes "/proc/cpuinfo") p)

  -- The text in /proc/cpuinfo behind the first of three names, or "unknown".
  pub hardware : S → Bytes
  unfolding first_line or_keep
  hardware s =
      first_line s
        (codes "Hardware.+:.(\\w+)" ∷ codes "vendor_id.+:.(\\w+)" ∷ codes "machine.+:.(\\w+)" ∷ [])

  -- The loop over the table.
  pub try_manufacturers : List Manufacturer → Ident S → Bool × Ident S
  unfolding matches run_detect run_setup or_keep
  try_manufacturers [] c = (false, c)
  try_manufacturers (m ∷ ms) c =
      let r = run_detect m.detect_fn 0 c in
      let passed = try_manufacturers ms c in
      let missed = try_manufacturers ms r.1 in
      if matches m.pattern c.chip_manufacturer
      then if r.0
        then (
          true,
          run_setup m.setup_hal_fn (record (r.1) {
            chip_manufacturer = or_keep r.1.chip_manufacturer m.override_vendor;
          }),
        )
        else missed
      else passed

  pub generic_detect_cpu : Arch → Ident S → Bool × Ident S
  unfolding hardware manufacturers try_manufacturers
  generic_detect_cpu arch c =
      try_manufacturers (manufacturers arch)
        (record c { chip_name = codes "unknown"; chip_manufacturer = hardware c.system })

  pub detect_and_set : Bytes → Platform → ℕ → Ident S → Bool × Ident S
  detect_and_set manufacturer p base c =
      let r = run_detect p base c in
      if r.0
      then (true, run_setup p (record (r.1) { chip_manufacturer = manufacturer }))
      else (false, r.1)

  -- `none` stands for -1.
  pub get_uart0_address : S → Option ℕ
  get_uart0_address s =
      elim (layer.line_from_file s (codes "/proc/iomem") (codes "^(\\w+)-.+:.+uart")) [
        | none ↦ none
        | some line ↦ some (layer.strtol_16 line)
      ]

  abbrev hisilicon : ℕ → Ident S → Bool × Ident S
  hisilicon base c = detect_and_set (codes "HiSilicon") hisi base c

  -- The cases of the switch that only 32-bit ARM has.
  pub arm_system : ℕ → Ident S → Bool × Ident S
  unfolding detect_and_set goke generic_detect_cpu
  arm_system uart c =
      if uart == 0x10030000
      then detect_and_set (codes "Xiongmai") xm 0 c
      else if uart == 0x12100000 || uart == 0x120a0000 || uart == 0x12040000
      then goke (hisilicon 0x12020000 c)
      else if uart == 0x12080000
      then hisilicon 0x12050000 c
      else if uart == 0x20080000
      then hisilicon 0x20050000 c
      else generic_detect_cpu arm c

  -- The switch on the address of the first UART.
  pub by_uart : Arch → Option ℕ → Ident S → Bool × Ident S
  unfolding arm_system
  by_uart arch none c = generic_detect_cpu arch c
  by_uart arch (some uart) c =
      if uart == 0x11040000
      then hisilicon 0x11020000 c
      else elim arch [ arm ↦ arm_system uart c | other ↦ generic_detect_cpu other c ]

  unfoldable pub hw_detect_system : Arch → Ident S → Bool × Ident S
  unfolding by_uart get_uart0_address
  hw_detect_system arch c = by_uart arch (get_uart0_address c.system) c
