-- ===== src/Sensors/Superpix.antt =====
-- src/sensors.c: `detect_galaxycore_sensor` and `detect_superpix_sensor`.
pub mod Naming
use ipctool.Base.{
  ℕ, bit_or, Bool, false, ◌&&◌, ◌||◌, Option, some, List, [], ◌∷◌, ◌++◌, ltb, ◌==◌, u32, ◌<<<◌,
  if◌then◌else◌, minus_one,
}
use ipctool.Base.Bytes.{codes}
use ipctool.Base.Format.{hex}
use ipctool.Sensors.Bus.{
  ◌behind◌, refuse, accept, Hal, M, ◌>>=◌, pure, name_it, go_on, on, run_blocks, select, i2c_read,
  i2c_write,
}
use ipctool.Sensors.Switch.{pack, one_of, id_then}

module _ {S : Type 0} (hal : Hal S) (fd i2c_addr : ℕ) where
  abbrev byte : ℕ → ℕ → M S ℕ
  byte reg reg_width = i2c_read hal fd i2c_addr reg reg_width 1

  pub galaxycore_short : ℕ → ℕ → M S (Option Bool)
  galaxycore_short prod_msb prod_lsb =
      if prod_msb == minus_one || prod_lsb == minus_one
      then refuse
      else on (one_of (pack 8 prod_msb prod_lsb) (0x2053 ∷ 0x2083 ∷ 0x2093 ∷ 0x4023 ∷ 0x4653 ∷ []))
          (name_it (codes "GC" ++ hex 4 (pack 8 prod_msb prod_lsb)))

  -- the id at register width 2, or at width 1 where that is not answered
  pub galaxycore_first : M S (Option Bool)
  unfolding galaxycore_short
  galaxycore_first = do
    prod_msb ← byte 0x3f0 2
    prod_lsb ← byte 0x3f1 2
    if prod_msb == minus_one || prod_lsb == minus_one
        then (do msb ← byte 0xf0 1; lsb ← byte 0xf1 1; galaxycore_short msb lsb)
        else galaxycore_short prod_msb prod_lsb

  abbrev galaxycore_ids : List ℕ
  galaxycore_ids =
      0x1004 ∷ 0x1024 ∷ 0x1034 ∷ 0x1054 ∷ 0x2023 ∷ 0x2033 ∷ 0x2053 ∷ 0x2063 ∷ 0x2083 ∷ 0x3003
      ∷ 0x4023 ∷ 0x4653 ∷ 0x46c3 ∷ 0x5035 ∷ 0x5603 ∷ []

  pub galaxycore_second : M S (Option Bool)
  unfolding id_then
  galaxycore_second =
      id_then hal fd i2c_addr 0xf0 0xf1 1
        λ res. if one_of res galaxycore_ids then name_it (codes "GC" ++ hex 4 res) else refuse

  pub detect_galaxycore_sensor : M S Bool
  unfolding galaxycore_first galaxycore_second
  detect_galaxycore_sensor =
      run_blocks (select hal fd i2c_addr behind galaxycore_first behind galaxycore_second)

  -- if (page > 0) i2c_write_register(fd, i2c_addr, 0xFD, 1, 0x00, 2);
  pub superpix_page : M S (Option Bool)
  superpix_page = do
    page ← byte 0xFD 1
    if ltb 0 page && ltb page 0x8000_0000
        then (do _ ← i2c_write hal fd i2c_addr 0xFD 1 0x00 2; go_on)
        else go_on

  -- the two switches on the id at 0x02 and 0x03, the second with the byte at 0x04
  pub superpix_model : ℕ → ℕ → M S (Option Bool)
  superpix_model res res2 =
      if res == 0
      then refuse
      else if res == 0x140a
      then name_it (codes "SP" ++ hex 4 res)
      else if res == 0x2735
      then name_it (codes "OV" ++ hex 4 res)
      else if res == 0x4308
      then name_it (codes "OS04B10")
      else if res == 0x5302
      then name_it (codes "SP2308")
      else if res == 0x5303
      then name_it (codes "OS03B10")
      else if res == 0x5602
      then name_it (codes "OS02G10")
      else on (res2 == 0x530444) (name_it (codes "OS04D10"))

  pub superpix_first : M S (Option Bool)
  unfolding superpix_model
  superpix_first = do
    prod_msb ← byte 0x02 1
    if prod_msb == minus_one then refuse else do
      prod_lsb ← byte 0x03 1
      if prod_lsb == minus_one then refuse else do
        prod_mod ← byte 0x04 1
        superpix_model (pack 8 prod_msb prod_lsb)
            (bit_or (bit_or (u32 (prod_msb <<< 16)) (u32 (prod_lsb <<< 8))) prod_mod)

  -- `case 0x0000` stands behind `if (!res) return false`
  pub superpix_second : M S (Option Bool)
  unfolding id_then
  superpix_second = id_then hal fd i2c_addr 0xfa 0xfb 1 λ res.
      if res == 0
      then refuse
      else if res == 0x2073 || res == 0
      then name_it (codes "SP" ++ hex 4 0x2305)
      else refuse

  pub detect_superpix_sensor : M S Bool
  unfolding superpix_page superpix_first superpix_second
  detect_superpix_sensor =
      run_blocks
        (select hal fd i2c_addr behind superpix_page behind superpix_first behind superpix_second)
