-- ===== src/Tests/PinmuxRuns.antt =====
-- Pin multiplexing (src/reginfo.c) on the first Hi3518 and on a memory that holds its own addresses.
use ipctool.Base.{
  ℕ, ◌+◌, ◌-◌, ◌*◌, ◌/◌, ◌%◌, ◌≤◌, true, ◌≡◌, inl, refl, some, none, [], ◌∷◌, arith, minus_one,
  false, ◌==◌, if◌then◌else◌,
}
use ipctool.Base.Bytes.{Bytes, codes}
use ipctool.Tests.MemoryRuns.{counted, state}
use ipctool.Pinmux.Register.{Register, muxctrl}
use ipctool.Pinmux.Select.{regs_by_chip}
use ipctool.Pinmux.Tables.Cv100.{cv100_regs}
use ipctool.Pinmux.Mux.{Scan, find_pin, is_pin, mux_value, gpio_mux_by}
use ipctool.Pinmux.Mux.Safe.{Ended, gpio_mux_by-Ended}
use ipctool.Pinmux.Mux.Bits.{mux_value_fields}
use ipctool.Pinmux.Mux.Find.{RowOf, first, find_pin_unique}
use ipctool.Pinmux.Gpio.{Blocks, get_chip_gpio_adress, place, gpio_manipulate}
use ipctool.Pinmux.Tables.Av200.{av200_regs, av200_low, av200_high}
use ipctool.Pinmux.Register.{is_gpio}
use ipctool.Pinmux.Enabled.{fill_enabled_gpios}
use ipctool.Pinmux.Enabled.Fits.{pair_fits, funcs_fit, table_fits, Good, fill_enabled_gpios-Good}
use ipctool.Pinmux.Gpio.Safe.{Quiet, gpio_manipulate-Quiet}
use ipctool.Pinmux.Gpio.Address.{data_address-injective}
use ipctool.Memory.{Window, MemState}

-- A scanner that knows "1_0" and "1".
abbrev scan : Scan
scan = record { strtoul_10 = λ s. 1; scan_pair = λ s. some (1, 0) }

mux_value_fields_example :
    (mux_value 0x12345 3 % 16 ≡ 3) × (mux_value 0x12345 3 / 16 ≡ 0x12345 / 16 % 4096)
mux_value_fields_example = mux_value_fields 0x12345 3 (omega arith)

gpio_mux_by-Ended_example :
    Ended counted
      (inl refl)
      (gpio_mux_by counted scan 0x3516E300 (codes "3516EV300") (codes "1_0") minus_one none state)
gpio_mux_by-Ended_example =
    gpio_mux_by-Ended counted (inl refl) scan 0x3516E300 (codes "3516EV300") (codes "1_0") minus_one
      none state (refl, inl refl, refl, refl)

place_known : (place scan (codes "1_0")).1 ≤ 0x7fff_ffff
unfolding place
place_known = omega arith

gpio_manipulate-Quiet_example : Quiet counted (inl refl) (
    gpio_manipulate counted scan 0x3516E300
      (codes "3516EV300")
      (codes "1_0")
      (some (codes "1"))
      state)
gpio_manipulate-Quiet_example =
    gpio_manipulate-Quiet counted (inl refl) scan 0x3516E300 (codes "3516EV300") (codes "1_0")
      (some (codes "1")) state place_known (refl, inl refl, refl, refl)

abbrev first_blocks : Blocks
first_blocks = record { gpio_base = 0x20140000; gpio_offset = 0x10000; gpio_groups = 12 }

first_chip : get_chip_gpio_adress 0x35180100 (codes "3518CV100") ≡ some first_blocks
unfolding get_chip_gpio_adress
first_chip = refl

data_address-injective_example : (◌≡◌ {A = ℕ} 3 3) × (◌≡◌ {A = ℕ} 5 5)
data_address-injective_example =
    data_address-injective 0x35180100 (codes "3518CV100") first_blocks first_chip 3 5 3 5
      (omega arith) (omega arith) (omega arith) (omega arith) refl

abbrev gpio_window : Window
gpio_window = record {
  area = record { mapped_offset = 0x20150000; mapped_size = 0xffff };
  loaded_offset = 0x20150000;
  loaded_size = 0xffff;
}

-- A window over the second group is held.
abbrev over_group : MemState ℕ
over_group = record { system = 0; mem_fd = 3; loaded_area = some gpio_window }

abbrev shutter : Register
shutter = muxctrl 0x200f0000 ("GPIO1_0" ∷ "SHUTTER_TRIG" ∷ [])

first_table : regs_by_chip 0x35180100 (codes "3518CV100") ≡ some cv100_regs
unfolding regs_by_chip
first_table = refl

shutter-RowOf : RowOf shutter cv100_regs
unfolding cv100_regs
shutter-RowOf = first _

shutter_selects : is_pin (codes "1_0") (codes "GPIO1_0") ≡ true
unfolding is_pin
shutter_selects = refl

find_pin_unique_example : find_pin (codes "1_0") cv100_regs ≡ some (shutter, 0)
find_pin_unique_example =
    find_pin_unique (codes "1_0") 0x35180100 (codes "3518CV100") cv100_regs shutter 0 first_table
      shutter-RowOf shutter_selects

-- The number at the start of a text, up to `_` or the end.
abbrev number : Bytes → ℕ → ℕ
number [] n = n
number (c ∷ cs) n = if c == 95 then n else number cs (n * 10 + (c - 48))

abbrev behind : Bytes → Bytes
behind [] = []
behind (c ∷ cs) = if c == 95 then cs else behind cs

abbrev pair_scan : Scan
pair_scan = record {
  strtoul_10 = λ s. number s 0;
  scan_pair = λ s. some (number s 0, number (behind s) 0);
}

first_fits : table_fits pair_scan 12 cv100_regs ≡ true
unfolding table_fits funcs_fit cv100_regs pair_fits is_gpio codes
first_fits = refl

-- The table of the Hi3519 has pins of a group that its sixteen groups do not have.
av200_unfit : table_fits pair_scan 16 av200_regs ≡ false
unfolding table_fits funcs_fit av200_regs av200_low av200_high pair_fits is_gpio codes
av200_unfit = refl

fill_enabled_gpios-Good_example :
    Good counted (inl refl) pair_scan 12 (fill_enabled_gpios counted pair_scan 12 cv100_regs state)
fill_enabled_gpios-Good_example =
    fill_enabled_gpios-Good counted (inl refl) pair_scan 12 0x35180100 (codes "3518CV100")
      cv100_regs state first_table first_fits (refl, inl refl, refl, refl)
