-- ===== src/Sensors/Superpix/Naming.antt =====
-- What the detectors of the parent module leave in the context.
use ipctool.Base.{ℕ}
use ipctool.Sensors.Bus.{Dev, Hal}
use ipctool.Sensors.Verdict.{Sound, verdict, Answer, Named, run_blocks-Named}
use ipctool.Sensors.Switch.{id_then-Sound}
use ipctool.Sensors.Superpix.{
  galaxycore_short, galaxycore_first, galaxycore_second, superpix_page, superpix_model,
  superpix_first, superpix_second, detect_galaxycore_sensor, detect_superpix_sensor,
}

module _ {S : Type 0} (hal : Hal S) (fd i2c_addr : ℕ) where
  galaxycore_short-Sound : (a b : ℕ) → Sound (galaxycore_short hal fd i2c_addr a b)
  unfolding galaxycore_short
  galaxycore_short-Sound a b = search verdict depth 40

  galaxycore_first-Sound : Sound (galaxycore_first hal fd i2c_addr)
  unfolding galaxycore_first
  galaxycore_first-Sound = search (verdict, galaxycore_short-Sound) depth 40

  galaxycore_second-Sound : Sound (galaxycore_second hal fd i2c_addr)
  unfolding galaxycore_second
  galaxycore_second-Sound = search (verdict, id_then-Sound) depth 40

  superpix_page-Sound : Sound (superpix_page hal fd i2c_addr)
  unfolding superpix_page
  superpix_page-Sound = search verdict depth 40

  superpix_model-Sound : (a b : ℕ) → Sound (superpix_model hal fd i2c_addr a b)
  unfolding superpix_model
  superpix_model-Sound a b = search verdict depth 40

  superpix_first-Sound : Sound (superpix_first hal fd i2c_addr)
  unfolding superpix_first
  superpix_first-Sound = search (verdict, superpix_model-Sound) depth 40

  superpix_second-Sound : Sound (superpix_second hal fd i2c_addr)
  unfolding superpix_second
  superpix_second-Sound = search (verdict, id_then-Sound) depth 40

  -- `detect_galaxycore_sensor` that answers false leaves the context as it was; one that answers
  -- true leaves a sensor name in it that is not empty.
  pub detect_galaxycore_sensor-Named :
      (d : Dev S) → Answer Named (detect_galaxycore_sensor hal fd i2c_addr) d
  unfolding detect_galaxycore_sensor
  detect_galaxycore_sensor-Named =
      run_blocks-Named _
        (search (verdict, galaxycore_first-Sound, galaxycore_second-Sound) depth 20)

  -- `detect_superpix_sensor` that answers false leaves the context as it was; one that answers
  -- true leaves a sensor name in it that is not empty.
  pub detect_superpix_sensor-Named :
      (d : Dev S) → Answer Named (detect_superpix_sensor hal fd i2c_addr) d
  unfolding detect_superpix_sensor
  detect_superpix_sensor-Named =
      run_blocks-Named _ (
        search (verdict, superpix_page-Sound, superpix_first-Sound, superpix_second-Sound) depth 20)
