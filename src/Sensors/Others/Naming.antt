-- ===== src/Sensors/Others/Naming.antt =====
-- What the detectors of the parent module leave in the context.
use ipctool.Base.{ℕ}
use ipctool.Sensors.Bus.{Dev, Hal}
use ipctool.Sensors.Verdict.{Sound, verdict, Answer, Named, run_blocks-Named}
use ipctool.Sensors.Switch.{id_then-Sound}
use ipctool.Sensors.Others.{
  techpoint_id, imagedesign_switch, visemi_switch, cvsens_switch, detect_techpoint_adc,
  detect_imagedesign_sensor, detect_visemi_sensor, detect_cvsens_sensor,
}

module _ {S : Type 0} (hal : Hal S) (fd i2c_addr : ℕ) where
  techpoint_id-Sound : Sound (techpoint_id hal fd i2c_addr)
  unfolding techpoint_id
  techpoint_id-Sound = search (verdict, id_then-Sound) depth 40

  imagedesign_switch-Sound : Sound (imagedesign_switch hal fd i2c_addr)
  unfolding imagedesign_switch
  imagedesign_switch-Sound = search (verdict, id_then-Sound) depth 40

  visemi_switch-Sound : Sound (visemi_switch hal fd i2c_addr)
  unfolding visemi_switch
  visemi_switch-Sound = search verdict depth 40

  cvsens_switch-Sound : Sound (cvsens_switch hal fd i2c_addr)
  unfolding cvsens_switch
  cvsens_switch-Sound = search (verdict, id_then-Sound) depth 40

  -- `detect_techpoint_adc` that answers false leaves the context as it was; one that answers true
  -- leaves a sensor name in it that is not empty.
  pub detect_techpoint_adc-Named :
      (d : Dev S) → Answer Named (detect_techpoint_adc hal fd i2c_addr) d
  unfolding detect_techpoint_adc
  detect_techpoint_adc-Named = run_blocks-Named _ (search (verdict, techpoint_id-Sound) depth 20)

  -- `detect_imagedesign_sensor` that answers false leaves the context as it was; one that answers
  -- true leaves a sensor name in it that is not empty.
  pub detect_imagedesign_sensor-Named :
      (d : Dev S) → Answer Named (detect_imagedesign_sensor hal fd i2c_addr) d
  unfolding detect_imagedesign_sensor
  detect_imagedesign_sensor-Named =
      run_blocks-Named _ (search (verdict, imagedesign_switch-Sound) depth 20)

  -- `detect_visemi_sensor` that answers false leaves the context as it was; one that answers true
  -- leaves a sensor name in it that is not empty.
  pub detect_visemi_sensor-Named :
      (d : Dev S) → Answer Named (detect_visemi_sensor hal fd i2c_addr) d
  unfolding detect_visemi_sensor
  detect_visemi_sensor-Named = run_blocks-Named _ (search (verdict, visemi_switch-Sound) depth 20)

  -- `detect_cvsens_sensor` that answers false leaves the context as it was; one that answers true
  -- leaves a sensor name in it that is not empty.
  pub detect_cvsens_sensor-Named :
      (d : Dev S) → Answer Named (detect_cvsens_sensor hal fd i2c_addr) d
  unfolding detect_cvsens_sensor
  detect_cvsens_sensor-Named = run_blocks-Named _ (search (verdict, cvsens_switch-Sound) depth 20)
