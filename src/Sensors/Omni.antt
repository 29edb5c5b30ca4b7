-- ===== src/Sensors/Omni.antt =====
-- src/sensors.c: `detect_omni_sensor`.
pub mod Naming
use ipctool.Base.{
  ℕ, Bool, false, ◌||◌, not, Option, some, [], ◌∷◌, ◌++◌, ◌==◌, if◌then◌else◌, minus_one,
}
use ipctool.Base.Bytes.{codes, contains}
use ipctool.Base.Format.{hex}
use ipctool.Sensors.Bus.{
  ◌behind◌, refuse, accept, go_on, Hal, M, ◌>>=◌, ◌>>◌, pure, name_it, on, run_blocks, select,
  set_sensor_id, i2c_read,
}
use ipctool.Sensors.Switch.{pack, one_of, id_then}

module _ {S : Type 0} (hal : Hal S) (fd i2c_addr : ℕ) where
  abbrev byte : ℕ → ℕ → M S ℕ
  byte reg reg_width = i2c_read hal fd i2c_addr reg reg_width 1

  -- the first switch of `detect_omni_sensor`, on the id read at register width 2
  pub omni_first : M S (Option Bool)
  omni_first = do
    prod_msb ← byte 0x300A 2
    prod_lsb ← byte 0x300B 2
    let res = pack 8 prod_msb prod_lsb
    if one_of res (0x2710 ∷ 0x2715 ∷ 0x2718 ∷ 0x5647 ∷ 0x9732 ∷ [])
        then name_it (codes "OV" ++ hex 4 res)
        else if res == 0x4688
        then name_it (codes "OV4689")
        else if res == 0x5303
        then name_it (
            if contains (codes "SigmaStar") hal.getchipvendor
            then codes "OS03A10"
            else codes "SP4329")
        else if res == 0x5304
        then name_it (codes "OS04A10")
        else if res == 0x5305
        then name_it (codes "OS05A10")
        else on (res == 0x5308) (name_it (codes "OS08A10"))

  -- the manufacturer's id
  pub omni_mfg : M S (Option Bool)
  omni_mfg = do
    mfg_msb ← byte 0x301C 1
    mfg_lsb ← byte 0x301D 1
    on
        (mfg_msb == minus_one
          || mfg_lsb == minus_one
          || not (mfg_msb == 0x7f)
          || not (mfg_lsb == 0xa2))
        refuse

  -- the model mapping; 0x5305 writes a name first, and is then named like the others
  pub omni_model : ℕ → M S (Option Bool)
  omni_model res =
      if res == 0x2770
      then name_it (codes "OV" ++ hex 4 0x2718)
      else if res == 0x4688
      then name_it (codes "OV" ++ hex 4 0x4689)
      else if res == 0x9711
      then name_it (codes "OV" ++ hex 4 0x9712)
      else if one_of res (0x2710 ∷ 0x2715 ∷ 0x9732 ∷ 0x9750 ∷ [])
      then name_it (codes "OV" ++ hex 4 res)
      else if res == 0x5305
      then (do set_sensor_id (codes "OS05A"); name_it (codes "OV" ++ hex 4 res))
      else refuse

  pub omni_second : M S (Option Bool)
  unfolding omni_model id_then
  omni_second =
      id_then hal fd i2c_addr 0x300A 0x300B 1 (λ res. if res == 0 then refuse else omni_model res)

  pub detect_omni_sensor : M S Bool
  unfolding omni_first omni_mfg omni_second
  detect_omni_sensor =
      run_blocks (select hal fd i2c_addr behind omni_first behind omni_mfg behind omni_second)
