-- ===== src/Sensors/Omni/Naming.antt =====
-- What the detectors of the parent module leave in the context.
use ipctool.Base.{ℕ}
use ipctool.Sensors.Bus.{Dev, Hal}
use ipctool.Sensors.Verdict.{Sound, verdict, Answer, Named, run_blocks-Named}
use ipctool.Sensors.Switch.{id_then-Sound}
use ipctool.Sensors.Omni.{omni_first, omni_mfg, omni_model, omni_second, detect_omni_sensor}

module _ {S : Type 0} (hal : Hal S) (fd i2c_addr : ℕ) where
  omni_first-Sound : Sound (omni_first hal fd i2c_addr)
  unfolding omni_first
  omni_first-Sound = search verdict depth 40

  omni_mfg-Sound : Sound (omni_mfg hal fd i2c_addr)
  unfolding omni_mfg
  omni_mfg-Sound = search verdict depth 40

  omni_model-Sound : (res : ℕ) → Sound (omni_model hal fd i2c_addr res)
  unfolding omni_model
  omni_model-Sound res = search verdict depth 40

  omni_second-Sound : Sound (omni_second hal fd i2c_addr)
  unfolding omni_second
  omni_second-Sound = search (verdict, id_then-Sound, omni_model-Sound) depth 40

  -- `detect_omni_sensor` that answers false leaves the context as it was; one that answers true
  -- leaves a sensor name in it that is not empty.
  pub detect_omni_sensor-Named : (d : Dev S) → Answer Named (detect_omni_sensor hal fd i2c_addr) d
  unfolding detect_omni_sensor
  detect_omni_sensor-Named =
      run_blocks-Named _
        (search (verdict, omni_first-Sound, omni_mfg-Sound, omni_second-Sound) depth 20)
