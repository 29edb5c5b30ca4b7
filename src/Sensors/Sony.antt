-- ===== src/Sensors/Sony.antt =====
-- src/sensors.c: `detect_sony_sensor`. Each block of the C function is a definition of its own,
-- in the order of the source; the parameters are read by the child module.
pub mod Params
pub mod Naming
use Params.{sony_imx219_params, sony_imx291_params}
use ipctool.Base.{
  ℕ, bit_and, Bool, true, false, ◌&&◌, ◌||◌, not, Option, some, none, List, [], ◌∷◌, ltb, ◌==◌,
  if◌then◌else◌, minus_one, String,
}
use ipctool.Base.Bytes.{codes}
use ipctool.Sensors.Bus.{
  ◌behind◌, refuse, accept, Hal, M, ◌>>=◌, ◌>>◌, ◌&&&◌, pure, name_it, set_sensor_id, go_on, on,
  run_blocks, select, read, read_0, read_is,
}

module _ {S : Type 0} (hal : Hal S) (fd i2c_addr : ℕ) where
  abbrev sensor_reg : ℕ → M S ℕ
  sensor_reg = read hal fd i2c_addr

  abbrev sensor_reg_0 : ℕ → M S ℕ
  sensor_reg_0 = read_0 hal fd i2c_addr

  -- READ(reg) == value
  abbrev is : ℕ → ℕ → M S Bool
  is = read_is hal fd i2c_addr

  -- if (test) { sprintf(ctx->sensor_id, name); return true; }
  pub named_if : M S Bool → String → M S (Option Bool)
  named_if test name = do t ← test; on t (name_it (codes name))

  pub sony_y_out_size : M S (Option Bool)
  sony_y_out_size = do
    chip_id ← sensor_reg 0x57
    on (chip_id == 0x06)
        do imx335 ← is 0x72 0x28 &&& is 0x74 0xB0; on (not imx335) (name_it (codes "IMX347"))

  pub sony_imx334 : M S (Option Bool)
  sony_imx334 = do
    t ← is 0x41C 0x47
    on t do
      r302E ← sensor_reg 0x2E
      r302F ← sensor_reg 0x2F
      on (r302E == 0x18 && r302F == 0xF) (name_it (codes "IMX334"))

  -- the signed test `r316A > 0` is `0 < r` and `r < 2 ^ 31`
  pub sony_imx335 : M S (Option Bool)
  sony_imx335 = do
    r316A ← sensor_reg 0x16A
    if r316A == minus_one
        then refuse
        else on ((ltb 0 r316A && ltb r316A 0x8000_0000) && bit_and r316A 0xFC == 0x7C)
            (name_it (codes "IMX335"))

  pub sony_imx32x : M S (Option Bool)
  sony_imx32x = do
    t ← is 0x13 0x40
    on t do u ← is 0x4F 0x7; name_it (if u then codes "IMX323" else codes "IMX322")

  -- a register that holds either of two values
  pub sony_either : ℕ → ℕ → ℕ → String → M S (Option Bool)
  sony_either reg v w name = do r ← sensor_reg reg; on (r == v || r == w) (name_it (codes name))

  pub imx29x_found : String → M S (Option Bool)
  imx29x_found name = do set_sensor_id (codes name); sony_imx291_params hal fd i2c_addr; accept

  pub sony_imx29x : M S (Option Bool)
  unfolding imx29x_found
  sony_imx29x = do
    t ← is 0x1E 0xB2 &&& is 0x1F 0x1
    on t do
      r309C ← sensor_reg 0x9C
      if r309C == 0x20 || r309C == 0x22
          then imx29x_found "IMX291"
          else if r309C == 0
          then imx29x_found "IMX290"
          else refuse

  pub sony_r31dc : M S (Option Bool)
  sony_r31dc = do
    r31DC ← sensor_reg 0x1DC
    if r31DC == 0xFF
        then go_on
        else if bit_and r31DC 6 == 4
        then name_it (codes "IMX307")
        else if bit_and r31DC 6 == 6
        then name_it (codes "IMX327")
        else sony_imx29x

  pub sony_imx219 : M S (Option Bool)
  sony_imx219 = do
    msb ← sensor_reg_0 0
    on (msb == 0x2) do
      lsb ← sensor_reg_0 1
      on (lsb == 0x19) do set_sensor_id (codes "IMX219"); sony_imx219_params hal fd i2c_addr; accept

  -- the registers 0x300D and 0x3010 tell IMX138 from IMX385 and IMX225
  pub sony_r300d : M S (Option Bool)
  sony_r300d = do
    r300D ← sensor_reg 0xD
    r3010 ← sensor_reg 0x10
    a ← pure (r300D == 0x20 && r3010 == 0x39) &&& is 0x6 0 &&& is 0xF 0x1 &&& is 0x12 0x50
    if a then name_it (codes "IMX138") else do
      b ← pure (r300D == 0 && r3010 == 0x1) &&& is 0x11 0 &&& is 0x1E 0x1 &&& is 0x1F 0
      on b do z ← is 0x338 0; name_it (if not z then codes "IMX385" else codes "IMX225")

  -- the tests inside `if (READ(0x4) == 0x10)`, the second run if the first block is passed
  pub sony_r3004 : M S (Option Bool)
  unfolding named_if
  sony_r3004 = do
    t ← is 0x4 0x10
    on t do u ← is 0xC 0 &&& is 0xE 0x1; on u sony_r300d behind named_if (is 0x9E 0x71) "IMX123"

  pub sony_imx66x : M S (Option Bool)
  unfolding named_if
  sony_imx66x = do
    a ← is 0xC44 6
    if a then name_it (codes "IMX664") else do
      b ← is 0xC40 5
      if b then name_it (codes "IMX662") else named_if (is 0xC7C 0x16) "IMX675"

  pub sony_r30a4 : M S (Option Bool)
  unfolding named_if sony_imx66x
  sony_r30a4 = do
    r30A4 ← sensor_reg 0xA4
    if bit_and r30A4 0xF0 == 0xA0
        then sony_imx66x
        else on (bit_and r30A4 0xF0 == 0x20) (named_if (is 0x152 0x1E) "IMX482")

  pub sony_blocks : M S (Option Bool)
  sony_blocks =
      select hal fd i2c_addr
      behind sony_y_out_size
      behind sony_imx334
      behind sony_imx335
      behind sony_imx32x
      behind sony_either 0xB00 0x2E 0x28 "IMX415"
      behind sony_either 0x3B4 0x96 0xFE "IMX178"
      behind named_if (is 0x120 0x80 &&& is 0x129 0xD) "IMX274"
      behind named_if (is 0x15 0x3C) "IMX185"
      behind named_if (is 0x5B8 0xFA) "IMX294"
      behind named_if (is 0x1C 0x8B) "IMX226"
      behind named_if (is 0xCE 0x16) "IMX122"
      behind named_if (is 0x45 0x32) "IMX226"
      behind sony_r31dc
      behind sony_imx219
      behind sony_r3004
      behind sony_r30a4

  pub detect_sony_sensor : M S Bool
  unfolding sony_blocks
  detect_sony_sensor = run_blocks sony_blocks
