-- ===== src/Sensors/Sony/Naming.antt =====
-- What a Sony detection leaves in the context.
use ipctool.Base.{ℕ, refl, ap, ◌≡◌, inl, inr, Bool, Bool-cases, String}
use ipctool.Sensors.Bus.{Dev, Hal, M, ◌>>=◌, read_0, i2c_write, write_through}
use ipctool.Sensors.Verdict.{
  KeepsCtx, KeepsId, Sound, NonEmpty, IsName-codes, name-Sound, verdict, Answer, Named,
  run_blocks-Named,
}
use ipctool.Sensors.Sony.Params.{sony_imx219_params, sony_imx291_params}
use ipctool.Sensors.Sony.{
  named_if, sony_either, detect_sony_sensor, sony_r31dc, sony_r3004, sony_r30a4, imx29x_found,
  sony_y_out_size, sony_imx334, sony_imx335, sony_imx32x, sony_imx29x, sony_imx66x, sony_imx219,
  sony_r300d,
}

module _ {S : Type 0} (hal : Hal S) (fd i2c_addr : ℕ) where
  named_if-Sound :
      (test : M S Bool) (name : String)
      → KeepsCtx test
      → NonEmpty name
      → Sound (named_if hal fd i2c_addr test name)
  unfolding named_if
  named_if-Sound test name h n = search verdict depth 20

  sony_either-Sound :
      (reg v w : ℕ) (name : String)
      → NonEmpty name
      → Sound (sony_either hal fd i2c_addr reg v w name)
  unfolding sony_either
  sony_either-Sound reg v w name n = search verdict depth 20

  write_through-keeps :
      (reg w v n : ℕ) (d : Dev S) → (write_through hal fd i2c_addr reg w v n d).1.ctx ≡ d.ctx
  unfolding write_through i2c_write
  write_through-keeps reg w v n d = elim (Bool-cases d.writer_set) [
    | inl y ↦ rw y refl
    | inr n' ↦ rw n' refl
  ]

  imx219_params-KeepsId : KeepsId (sony_imx219_params hal fd i2c_addr)
  unfolding KeepsId sony_imx219_params ◌>>=◌ read_0
  imx219_params-KeepsId d = ap (λ c. c.sensor_id) (write_through-keeps 0x140 2 0x80 1 d)

  imx291_params-KeepsId : KeepsId (sony_imx291_params hal fd i2c_addr)
  unfolding KeepsId sony_imx291_params ◌>>=◌ read_0
  imx291_params-KeepsId d = refl

  imx29x_found-Sound : (name : String) → NonEmpty name → Sound (imx29x_found hal fd i2c_addr name)
  unfolding imx29x_found
  imx29x_found-Sound name n = search (name-Sound, imx291_params-KeepsId, IsName-codes) depth 20

  sony_y_out_size-Sound : Sound (sony_y_out_size hal fd i2c_addr)
  unfolding sony_y_out_size
  sony_y_out_size-Sound = search verdict depth 30

  sony_imx334-Sound : Sound (sony_imx334 hal fd i2c_addr)
  unfolding sony_imx334
  sony_imx334-Sound = search verdict depth 30

  sony_imx335-Sound : Sound (sony_imx335 hal fd i2c_addr)
  unfolding sony_imx335
  sony_imx335-Sound = search verdict depth 30

  sony_imx32x-Sound : Sound (sony_imx32x hal fd i2c_addr)
  unfolding sony_imx32x
  sony_imx32x-Sound = search verdict depth 30

  sony_imx66x-Sound : Sound (sony_imx66x hal fd i2c_addr)
  unfolding sony_imx66x
  sony_imx66x-Sound = search (verdict, named_if-Sound) depth 30

  sony_imx219-Sound : Sound (sony_imx219 hal fd i2c_addr)
  unfolding sony_imx219
  sony_imx219-Sound = search (verdict, imx219_params-KeepsId) depth 30

  sony_r300d-Sound : Sound (sony_r300d hal fd i2c_addr)
  unfolding sony_r300d
  sony_r300d-Sound = search verdict depth 30

  sony_imx29x-Sound : Sound (sony_imx29x hal fd i2c_addr)
  unfolding sony_imx29x
  sony_imx29x-Sound = search (verdict, imx29x_found-Sound) depth 30

  sony_r31dc-Sound : Sound (sony_r31dc hal fd i2c_addr)
  unfolding sony_r31dc
  sony_r31dc-Sound = search (verdict, sony_imx29x-Sound) depth 30

  sony_r3004-Sound : Sound (sony_r3004 hal fd i2c_addr)
  unfolding sony_r3004
  sony_r3004-Sound = search (verdict, sony_r300d-Sound, named_if-Sound) depth 30

  sony_r30a4-Sound : Sound (sony_r30a4 hal fd i2c_addr)
  unfolding sony_r30a4
  sony_r30a4-Sound = search (verdict, sony_imx66x-Sound, named_if-Sound) depth 30

  ruleset blocks = (
    named_if-Sound, sony_either-Sound, sony_y_out_size-Sound, sony_imx334-Sound, sony_imx335-Sound,
    sony_imx32x-Sound, sony_r31dc-Sound, sony_imx219-Sound, sony_r3004-Sound, sony_r30a4-Sound,
  )

  -- `detect_sony_sensor` that answers false leaves the context as it was; one that answers true
  -- leaves a sensor name in it that is not empty.
  pub detect_sony_sensor-Named : (d : Dev S) → Answer Named (detect_sony_sensor hal fd i2c_addr) d
  unfolding detect_sony_sensor
  detect_sony_sensor-Named = run_blocks-Named _ (search (verdict, blocks) depth 60)
