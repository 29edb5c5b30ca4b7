-- ===== src/Pinmux/Select/Checked.antt =====
-- What holds of every table that a chip may have.
use ipctool.Base.{ℕ, Bool, true, false, Option, none, some, List, ◌≡◌, if◌then◌else◌}
use mathlib.Core.Path.{subst}
use ipctool.Base.Bytes.{Bytes}
use ipctool.Pinmux.Register.{Register, proper}
use ipctool.Pinmux.Select.{v4_regs, regs_by_chip}
use ipctool.Pinmux.Tables.Cv100.{cv100_regs-proper}
use ipctool.Pinmux.Tables.Av100.{av100_regs-proper}
use ipctool.Pinmux.Tables.Cv200.{cv200_regs-proper}
use ipctool.Pinmux.Tables.Ev20x.{ev20x_regs-proper}
use ipctool.Pinmux.Tables.Av200.{av200_regs-proper}
use ipctool.Pinmux.Tables.Cv300.{cv300_regs-proper}
use ipctool.Pinmux.Tables.Cv500.{cv500_regs-proper}
use ipctool.Pinmux.Tables.Dv300.{dv300_regs-proper}
use ipctool.Pinmux.Tables.Ev200.{ev200_regs-proper}
use ipctool.Pinmux.Tables.Ev300.{ev300_regs-proper}
use ipctool.Pinmux.Tables.S18ev300.{s18ev300_regs-proper}
use ipctool.Pinmux.Tables.Dv200.{dv200_regs-proper}
use ipctool.Pinmux.Tables.Dv100.{dv100_regs-proper}
use ipctool.Pinmux.Tables.Rcv100.{rcv100_regs-proper}
use ipctool.Pinmux.Tables.Cv610.{cv610_regs-proper}
use ipctool.Pinmux.Tables.Dv500.{dv500_regs-proper}
use ipctool.Pinmux.Tables.I6b.{i6b_regs-proper}
use ipctool.Pinmux.Tables.I6c.{i6c_regs-proper}
use ipctool.Pinmux.Tables.I6e.{i6e_regs-proper}
use ipctool.Pinmux.Tables.T31.{t31_regs-proper}

-- The table has passed the check of its rows.
unfoldable pub Passed : Option (List Register) → Type 0
Passed none = Unit {0}
Passed (some rs) = proper rs ≡ true

some-Passed : (rs : List Register) → proper rs ≡ true → Passed (some rs)
unfolding Passed
some-Passed rs h = h

none-Passed : Passed none
unfolding Passed
none-Passed = tt

if-Passed :
    (b : Bool) (r s : Option (List Register)) → Passed r → Passed s → Passed (if b then r else s)
if-Passed true r s h k = h
if-Passed false r s h k = k

ruleset rows = (
  some-Passed, none-Passed, if-Passed, cv100_regs-proper, av100_regs-proper, cv200_regs-proper,
  ev20x_regs-proper, av200_regs-proper, cv300_regs-proper, cv500_regs-proper, dv300_regs-proper,
  ev200_regs-proper, ev300_regs-proper, s18ev300_regs-proper, dv200_regs-proper, dv100_regs-proper,
  rcv100_regs-proper, cv610_regs-proper, dv500_regs-proper, i6b_regs-proper, i6c_regs-proper,
  i6e_regs-proper, t31_regs-proper,
)

v4_regs-Passed : (c : Bytes) → Passed (v4_regs c)
unfolding v4_regs
v4_regs-Passed c = search rows depth 20

pub regs_by_chip-Passed : (generation : ℕ) (c : Bytes) → Passed (regs_by_chip generation c)
unfolding regs_by_chip
regs_by_chip-Passed generation c = search (rows, v4_regs-Passed) depth 40

pub regs_by_chip-proper :
    (generation : ℕ) (c : Bytes) (rs : List Register)
    → regs_by_chip generation c ≡ some rs
    → proper rs ≡ true
unfolding Passed
regs_by_chip-proper generation c rs e = subst Passed e (regs_by_chip-Passed generation c)
