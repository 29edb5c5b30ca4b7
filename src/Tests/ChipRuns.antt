-- ===== src/Tests/ChipRuns.antt =====
-- Chip identification (src/chipid.c) on a system whose processor is a SigmaStar one.
use ipctool.Base.{ℕ, if◌then◌else◌, true, false, Option, none, some, [], ◌≡◌, ◌≢◌, refl}
use ipctool.Base.Bytes.{Bytes, codes, starts_with, equal}
use ipctool.Chip.Detect.{
  CpuLayer, Detection, Ident, Platform, sstar, arm, manufacturers, hardware, generic_detect_cpu,
  hw_detect_system,
}
use ipctool.Chip.Detect.Choice.{
  Served, generic_detect_cpu-Served, Equipped, hw_detect_system-Equipped,
}
use ipctool.Chip.Name.{getchipname}
use ipctool.Chip.Name.Cached.{getchipname-cached}

-- The first bytes of a file's name tell /proc/cpuinfo from /proc/iomem.
abbrev read_line : Bytes → Option Bytes
read_line file = if starts_with (codes "/proc/c") file then some (codes "SStar") else none

abbrev found_sstar : Platform → Detection ℕ
found_sstar sstar = record {
  answer = true;
  name = some (codes "SSC335");
  generation = some 0xF2;
  state = 1;
}
found_sstar p = record { answer = false; name = none; generation = none; state = 0 }

abbrev sigma : CpuLayer ℕ
sigma = record {
  line_from_file = λ s file pattern. read_line file;
  strtol_16 = λ text. 0;
  detect_cpu = λ p base s. found_sstar p;
  setup_hal = λ p s. s;
  setup_hal_fallback = λ s. s;
}

abbrev nothing_known : Ident ℕ
nothing_known = record {
  system = 0;
  chip_generation = 0;
  chip_name = [];
  chip_manufacturer = [];
  sysid = [];
  hal = none;
}

abbrev named_chip : Ident ℕ
named_chip = record (nothing_known) { sysid = codes "ssc335"; chip_generation = 0xF2 }

generic_detect_cpu-Served_example :
    Served (manufacturers arm) (hardware sigma 0) none (generic_detect_cpu sigma arm nothing_known)
generic_detect_cpu-Served_example = generic_detect_cpu-Served sigma arm nothing_known

hw_detect_system-Equipped_example : Equipped none (hw_detect_system sigma arm nothing_known)
hw_detect_system-Equipped_example = hw_detect_system-Equipped sigma nothing_known arm

sigma_name : (getchipname sigma arm nothing_known).0 ≡ some (codes "ssc335")
unfolding getchipname hw_detect_system codes starts_with equal
sigma_name = refl

ssc335-ne : codes "ssc335" ≢ []
unfolding codes
ssc335-ne = λ e. cc

getchipname-cached_example :
    getchipname sigma arm (getchipname sigma arm nothing_known).1
    ≡ (some (codes "ssc335"), (getchipname sigma arm nothing_known).1)
getchipname-cached_example =
    getchipname-cached sigma arm nothing_known (codes "ssc335") sigma_name ssc335-ne
