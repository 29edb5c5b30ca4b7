-- ===== src/Sensors/Soi/Naming.antt =====
-- What the detectors of the parent module leave in the context.
use ipctool.Base.{ℕ}
use ipctool.Sensors.Bus.{Dev, Hal}
use ipctool.Sensors.Verdict.{Sound, verdict, Answer, Named, run_blocks-Named}
use ipctool.Sensors.Soi.{soi_switch, onsemi_switch, detect_soi_sensor, detect_onsemi_sensor}

module _ {S : Type 0} (hal : Hal S) (fd i2c_addr : ℕ) where
  soi_switch-Sound : Sound (soi_switch hal fd i2c_addr)
  unfolding soi_switch
  soi_switch-Sound = search verdict depth 40

  onsemi_switch-Sound : Sound (onsemi_switch hal fd i2c_addr)
  unfolding onsemi_switch
  onsemi_switch-Sound = search verdict depth 40

  -- `detect_soi_sensor` that answers false leaves the context as it was; one that answers true
  -- leaves a sensor name in it that is not empty.
  pub detect_soi_sensor-Named : (d : Dev S) → Answer Named (detect_soi_sensor hal fd i2c_addr) d
  unfolding detect_soi_sensor
  detect_soi_sensor-Named = run_blocks-Named _ (search (verdict, soi_switch-Sound) depth 20)

  -- `detect_onsemi_sensor` that answers false leaves the context as it was; one that answers true
  -- leaves a sensor name in it that is not empty.
  pub detect_onsemi_sensor-Named :
      (d : Dev S) → Answer Named (detect_onsemi_sensor hal fd i2c_addr) d
  unfolding detect_onsemi_sensor
  detect_onsemi_sensor-Named = run_blocks-Named _ (search (verdict, onsemi_switch-Sound) depth 20)
