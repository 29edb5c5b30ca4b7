-- ===== src/Sensors/Naming.antt =====
-- What the detectors of the smaller vendors leave in the context.
use ipctool.Base.{ℕ}
use ipctool.Sensors.Bus.{Dev, Hal}
use ipctool.Sensors.Verdict.{Answer, Named}
use ipctool.Sensors.Soi.{detect_soi_sensor, detect_onsemi_sensor}
use ipctool.Sensors.Soi.Naming.{detect_soi_sensor-Named, detect_onsemi_sensor-Named}
use ipctool.Sensors.Superpix.{detect_galaxycore_sensor, detect_superpix_sensor}
use ipctool.Sensors.Superpix.Naming.{detect_galaxycore_sensor-Named, detect_superpix_sensor-Named}
use ipctool.Sensors.Others.{
  detect_techpoint_adc, detect_imagedesign_sensor, detect_visemi_sensor, detect_cvsens_sensor,
}
use ipctool.Sensors.Others.Naming.{
  detect_techpoint_adc-Named, detect_imagedesign_sensor-Named, detect_visemi_sensor-Named,
  detect_cvsens_sensor-Named,
}

-- For the detectors of SOI, ON Semiconductor, GalaxyCore, Superpix, Techpoint, Image Design, VISEMI
-- and CVSENS, on every bus and at every address: one that answers false leaves the context as it was,
-- and one that answers true leaves a sensor name in it that is not empty.
pub small_vendors-Named :
    {S : Type 0} (hal : Hal S) (fd i2c_addr : ℕ) (d : Dev S)
    → Answer Named (detect_soi_sensor hal fd i2c_addr) d
      × Answer Named (detect_onsemi_sensor hal fd i2c_addr) d
      × Answer Named (detect_galaxycore_sensor hal fd i2c_addr) d
      × Answer Named (detect_superpix_sensor hal fd i2c_addr) d
      × Answer Named (detect_techpoint_adc hal fd i2c_addr) d
      × Answer Named (detect_imagedesign_sensor hal fd i2c_addr) d
      × Answer Named (detect_visemi_sensor hal fd i2c_addr) d
      × Answer Named (detect_cvsens_sensor hal fd i2c_addr) d
small_vendors-Named hal fd i2c_addr d = (
  detect_soi_sensor-Named hal fd i2c_addr d,
  detect_onsemi_sensor-Named hal fd i2c_addr d,
  detect_galaxycore_sensor-Named hal fd i2c_addr d,
  detect_superpix_sensor-Named hal fd i2c_addr d,
  detect_techpoint_adc-Named hal fd i2c_addr d,
  detect_imagedesign_sensor-Named hal fd i2c_addr d,
  detect_visemi_sensor-Named hal fd i2c_addr d,
  detect_cvsens_sensor-Named hal fd i2c_addr d,
)
