-- ===== src/Pinmux/Select.antt =====
-- src/reginfo.c: `regs_by_chip`, the table of the chip that has been detected.
pub mod Checked
use ipctool.Base.{
  ℕ, Bool, true, false, ◌||◌, Option, none, some, List, [], ◌∷◌, String, ◌==◌, if◌then◌else◌,
}
use ipctool.Base.Bytes.{Bytes, codes, equal}
use ipctool.Pinmux.Register.{Register}
use ipctool.Pinmux.Tables.Cv100.{cv100_regs}
use ipctool.Pinmux.Tables.Av100.{av100_regs}
use ipctool.Pinmux.Tables.Cv200.{cv200_regs}
use ipctool.Pinmux.Tables.Ev20x.{ev20x_regs}
use ipctool.Pinmux.Tables.Av200.{av200_regs}
use ipctool.Pinmux.Tables.Cv300.{cv300_regs}
use ipctool.Pinmux.Tables.Cv500.{cv500_regs}
use ipctool.Pinmux.Tables.Dv300.{dv300_regs}
use ipctool.Pinmux.Tables.Ev200.{ev200_regs}
use ipctool.Pinmux.Tables.Ev300.{ev300_regs}
use ipctool.Pinmux.Tables.S18ev300.{s18ev300_regs}
use ipctool.Pinmux.Tables.Dv200.{dv200_regs}
use ipctool.Pinmux.Tables.Dv100.{dv100_regs}
use ipctool.Pinmux.Tables.Rcv100.{rcv100_regs}
use ipctool.Pinmux.Tables.Cv610.{cv610_regs}
use ipctool.Pinmux.Tables.Dv500.{dv500_regs}
use ipctool.Pinmux.Tables.I6b.{i6b_regs}
use ipctool.Pinmux.Tables.I6c.{i6c_regs}
use ipctool.Pinmux.Tables.I6e.{i6e_regs}
use ipctool.Pinmux.Tables.T31.{t31_regs}

-- IS_CHIP(name), one of several names
pub is_chip : Bytes → List String → Bool
is_chip chip_name [] = false
is_chip chip_name (n ∷ ns) = equal chip_name (codes n) || is_chip chip_name ns

-- The macros of src/hal/hisi/hal_hisi.h.
pub is_16ev200 : Bytes → Bool
unfolding is_chip
is_16ev200 c = is_chip c ("3516EV200" ∷ "7205V200" ∷ "7205V210" ∷ "7201V200" ∷ "7201V300" ∷ [])

pub is_16ev300 : Bytes → Bool
unfolding is_chip
is_16ev300 c = is_chip c ("3516EV300" ∷ "7205V300" ∷ [])

pub is_18ev300 : Bytes → Bool
unfolding is_chip
is_18ev300 c = is_chip c ("3518EV300" ∷ "7202V300" ∷ "7202V330" ∷ [])

pub is_16dv200 : Bytes → Bool
unfolding is_chip
is_16dv200 c = is_chip c ("3516DV200" ∷ "7605V100" ∷ [])

pub is_7205v500 : Bytes → Bool
unfolding is_chip
is_7205v500 c = is_chip c ("7205V500" ∷ "7205V510" ∷ "7205V530" ∷ [])

-- case HISI_V4
pub v4_regs : Bytes → Option (List Register)
unfolding is_16ev200 is_16ev300 is_18ev300 is_16dv200 is_7205v500
v4_regs c =
    if is_16ev200 c
    then some ev200_regs
    else if is_16ev300 c
    then some ev300_regs
    else if is_18ev300 c
    then some s18ev300_regs
    else if is_16dv200 c
    then some dv200_regs
    else if is_7205v500 c
    then some ev200_regs
    else none

-- By `chip_generation` and `chip_name`. `none` ends the process with EXIT_FAILURE.
unfoldable pub regs_by_chip : ℕ → Bytes → Option (List Register)
unfolding v4_regs
regs_by_chip generation c =
    if generation == 0x35180100
    then some cv100_regs
    else if generation == 0x3516A100
    then some av100_regs
    else if generation == 0x3518E200
    then (if is_chip c ("3516CV200" ∷ []) then some cv200_regs else some ev20x_regs)
    else if generation == 0x35190101
    then some av200_regs
    else if generation == 0x3516C300
    then some cv300_regs
    else if generation == 0x3516C500
    then (if is_chip c ("3516CV500" ∷ []) then some cv500_regs else some dv300_regs)
    else if generation == 0x3516E300
    then v4_regs c
    else if generation == 0x3516C610
    then (if is_chip c ("3519DV500" ∷ "3516DV500" ∷ []) then some dv500_regs else some cv610_regs)
    else if generation == 0x3536C100
    then some rcv100_regs
    else if generation == 0x3536D100
    then some dv100_regs
    else if generation == 0xEF || generation == 0xF2
    then some i6b_regs
    else if generation == 0xF9
    then some i6c_regs
    else if generation == 0xF1
    then some i6e_regs
    else if generation == 0x31
    then some t31_regs
    else none
