-- ===== src/Sensors/Soi.antt =====
-- src/sensors.c: `detect_soi_sensor` and `detect_onsemi_sensor`.
pub mod Naming
use ipctool.Base.{ℕ, Bool, false, ◌||◌, Option, some, [], ◌∷◌, ◌++◌, ◌==◌, if◌then◌else◌, minus_one}
use ipctool.Base.Bytes.{codes}
use ipctool.Base.Format.{hex}
use ipctool.Sensors.Bus.{
  ◌behind◌, refuse, accept, go_on, Hal, M, ◌>>=◌, pure, name_it, run_blocks, select, i2c_read,
}
use ipctool.Sensors.Switch.{one_of}

module _ {S : Type 0} (hal : Hal S) (fd i2c_addr : ℕ) where
  abbrev byte : ℕ → ℕ → M S ℕ
  byte reg reg_width = i2c_read hal fd i2c_addr reg reg_width 1

  pub soi_switch : M S (Option Bool)
  soi_switch = do
    pid ← byte 0xa 1
    if pid == minus_one then refuse else do
      ver ← byte 0xb 1
      if pid == 0xf
          then name_it (codes "JXF" ++ hex 1 ver)
          else if pid == 0xa0 || pid == 0xa
          then name_it (codes "JXH" ++ hex 1 ver)
          else if pid == 0x5
          then name_it (if ver == 0x07 then codes "JXQ03" else codes "JXK" ++ hex 2 ver)
          else if pid == 0x8
          then (if ver == 0x43
              then name_it (codes "JXQ03P")
              else if ver == 0x41
              then name_it (codes "JXF37P")
              else if ver == 0x42
              then name_it (codes "JXF53")
              else if ver == 0x44
              then name_it (codes "JXF38P")
              else refuse)
          else refuse

  pub detect_soi_sensor : M S Bool
  unfolding soi_switch
  detect_soi_sensor = run_blocks (select hal fd i2c_addr behind soi_switch)

  onsemi_sid : ℕ → ℕ
  onsemi_sid pid =
      if pid == 0x2402
      then 0x0130
      else if pid == 0x256
      then 0x0237
      else if pid == 0x2602
      then 0x0331
      else if pid == 0x2604
      then 0x0330
      else 0

  pub onsemi_switch : M S (Option Bool)
  unfolding onsemi_sid
  onsemi_switch = do
    pid ← i2c_read hal fd i2c_addr 0x3000 2 2
    if one_of pid (0 ∷ 0xffff_ffff ∷ 0xffff ∷ [])
        then refuse
        else (let sid = onsemi_sid pid in
            if sid == 0 then refuse else name_it (codes "AR" ++ hex 4 sid))

  pub detect_onsemi_sensor : M S Bool
  unfolding onsemi_switch
  detect_onsemi_sensor = run_blocks (select hal fd i2c_addr behind onsemi_switch)
