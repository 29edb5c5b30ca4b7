-- ===== src/Pinmux/Mux/Bits.antt =====
-- The value that `gpio_mux_by` writes.
use ipctool.Base.{ℕ, ◌/◌, ◌%◌, ◌<◌, ◌≡◌, bit_and, arith}
use ipctool.Base.Bits.{bit_and-fff0, bit_or_nibble}
use ipctool.Pinmux.Mux.{mux_value}

-- For a function below 16 the register's lowest four bits become the function, the twelve bits above
-- them are kept, and the upper half is cleared.
pub mux_value_fields :
    (val func : ℕ)
    → func < 16
    → (mux_value val func % 16 ≡ func) × (mux_value val func / 16 ≡ val / 16 % 4096)
unfolding mux_value
mux_value_fields val func small =
    let kept = bit_and-fff0 val in
    let sum = bit_or_nibble (bit_and val 0xfff0) func (omega (arith, kept)) small in
    (omega (arith, kept, sum), omega (arith, kept, sum))
