-- ===== src/Sensors/Others.antt =====
-- src/sensors.c: the detectors of TechPoint, ImageDesign, ViSemi and CVSENS.
pub mod Naming
use ipctool.Base.{ℕ, Bool, false, Option, some, [], ◌∷◌, ◌++◌, ◌==◌, if◌then◌else◌}
use ipctool.Base.Bytes.{codes}
use ipctool.Base.Format.{hex}
use ipctool.Sensors.Bus.{
  ◌behind◌, refuse, accept, go_on, Hal, M, ◌>>=◌, pure, name_it, run_blocks, select, i2c_read,
}
use ipctool.Sensors.Switch.{one_of, id_then}

module _ {S : Type 0} (hal : Hal S) (fd i2c_addr : ℕ) where
  pub techpoint_id : M S (Option Bool)
  techpoint_id =
      id_then hal fd i2c_addr 0xfe 0xff 1
        λ res. if res == 0 then refuse else name_it (codes "TP" ++ hex 4 res)

  pub detect_techpoint_adc : M S Bool
  unfolding techpoint_id id_then
  detect_techpoint_adc = run_blocks (select hal fd i2c_addr behind techpoint_id)

  pub imagedesign_switch : M S (Option Bool)
  imagedesign_switch = id_then hal fd i2c_addr 0x3000 0x3001 2 λ res.
      if one_of res (0x2006 ∷ 0x2008 ∷ 0x5001 ∷ [])
      then name_it (codes "MIS" ++ hex 4 res)
      else if res == 0x1311
      then name_it (codes "MIS4001")
      else refuse

  pub detect_imagedesign_sensor : M S Bool
  unfolding imagedesign_switch id_then
  detect_imagedesign_sensor = run_blocks (select hal fd i2c_addr behind imagedesign_switch)

  pub visemi_switch : M S (Option Bool)
  visemi_switch = do
    res ← i2c_read hal fd i2c_addr 0x3000 2 2
    if res == 0x4388 then name_it (codes "VS" ++ hex 4 res) else refuse

  pub detect_visemi_sensor : M S Bool
  unfolding visemi_switch
  detect_visemi_sensor = run_blocks (select hal fd i2c_addr behind visemi_switch)

  pub cvsens_switch : M S (Option Bool)
  cvsens_switch = id_then hal fd i2c_addr 0x3003 0x3002 2 λ res.
      if res == 0x2004
      then name_it (codes "CV2003")
      else if res == 0x2005
      then name_it (codes "CV" ++ hex 4 res)
      else refuse

  pub detect_cvsens_sensor : M S Bool
  unfolding cvsens_switch id_then
  detect_cvsens_sensor = run_blocks (select hal fd i2c_addr behind cvsens_switch)
