-- ===== src/Sensors/Switch.antt =====
-- src/sensors.c: the idioms that the detectors share.
use ipctool.Base.{
  ℕ, bit_or, Bool, false, ◌||◌, Option, List, [], ◌∷◌, ◌==◌, u32, ◌<<<◌, if◌then◌else◌, minus_one,
}
use ipctool.Sensors.Bus.{refuse, Hal, M, ◌>>=◌, i2c_read}
use ipctool.Sensors.Verdict.{Sound, verdict}

-- a << k | b on `int`s
abbrev pub pack : ℕ → ℕ → ℕ → ℕ
pack k a b = bit_or (u32 (a <<< k)) b

-- case v: of a switch over several values
abbrev pub one_of : ℕ → List ℕ → Bool
one_of x [] = false
one_of x (v ∷ vs) = v == x || one_of x vs

module _ {S : Type 0} (hal : Hal S) (fd i2c_addr : ℕ) where
  -- i2c_read_register(fd, i2c_addr, reg, reg_width, 1)
  abbrev byte : ℕ → ℕ → M S ℕ
  byte reg reg_width = i2c_read hal fd i2c_addr reg reg_width 1

  -- msb = read; if (msb == -1) return false; lsb = read; if (lsb == -1) return false;
  -- and then the block `k` on `msb << 8 | lsb`
  unfoldable pub id_then : ℕ → ℕ → ℕ → (ℕ → M S (Option Bool)) → M S (Option Bool)
  id_then msb_reg lsb_reg reg_width k = do
    msb ← byte msb_reg reg_width
    if msb == minus_one then refuse else do
      lsb ← byte lsb_reg reg_width
      if lsb == minus_one then refuse else k (pack 8 msb lsb)

  pub id_then-Sound :
      (msb_reg lsb_reg reg_width : ℕ) (k : ℕ → M S (Option Bool))
      → ((res : ℕ) → Sound (k res))
      → Sound (id_then msb_reg lsb_reg reg_width k)
  unfolding id_then
  id_then-Sound msb_reg lsb_reg reg_width k h = search verdict depth 20
