-- ===== src/Sensors/Smartsens.antt =====
-- src/sensors.c: `detect_smartsens_sensor`. The `switch` on the chip id is a table of its cases.
pub mod Naming
use ipctool.Base.{
  ℕ, bit_or, Bool, true, false, Option, some, List, [], ◌∷◌, ◌++◌, ◌==◌, u32, ◌<<<◌, if◌then◌else◌,
  minus_one, String,
}
use ipctool.Base.Bytes.{codes, contains}
use ipctool.Base.Format.{hex}
use ipctool.Sensors.Bus.{
  ◌behind◌, refuse, accept, go_on, Hal, M, ◌>>=◌, ◌>>◌, pure, name_it, set_sensor_id, run_blocks,
  select, i2c_read,
}

-- What a case does: `model id` breaks out of the switch with `res = id`, `named` copies a name and
-- returns true, `unnamed` returns true at once, `by_reg` and `by_vendor` choose between two names
-- by a register's value and by the chip's vendor, `overwritten` copies a name and falls through
-- to a break.
pub data Case : Type 0 where
  model : ℕ → Case
  named : String → Case
  overwritten : String → ℕ → Case
  by_reg : ℕ → ℕ → String → String → Case
  by_vendor : String → String → String → Case
  unnamed refused : Case

pub cases : List (ℕ × Case)
cases =
    (0x0010, model 0x1035)
    ∷ (0x0031, named "SC031GS")
    ∷ (0x0108, named "SC035GS")
    ∷ (0x0132, named "SC132GS")
    ∷ (0x1045, model 0x1045)
    ∷ (0x1145, model 0x1145)
    ∷ (0x1235, model 0x1235)
    ∷ (0x1245, by_reg 0x3020 2 "SC2145H_A" "SC2145H_B")
    ∷ (0x2032, model 0x2035)
    ∷ (0x2045, model 0x2045)
    ∷ (0x2135, model 0x2135)
    ∷ (0x2145, model 0x2145)
    ∷ (0x2232, by_reg 0x3109 0x20 "SC2235E" "SC2235P")
    ∷ (0x2235, model 0x2235)
    ∷ (0x2238, named "SC2315E")
    ∷ (0x2245, model 0x1145)
    ∷ (0x17cb, named "SC210IoT")
    ∷ (0x2300, named "SC307P")
    ∷ (0x2310, model 0x2310)
    ∷ (0x2311, named "SC2315")
    ∷ (0x2330, overwritten "SC307H" 0x2330)
    ∷ (0x3035, model 0x3035)
    ∷ (0x3235, model 0x4236)
    ∷ (0x4210, model 0x4210)
    ∷ (0x4235, model 0x4238)
    ∷ (0x5235, model 0x5235)
    ∷ (0x5300, named "SC335E")
    ∷ (0xbd2f, named "SC450AI")
    ∷ (0xca13, named "SC1335T")
    ∷ (0xca18, named "SC1330T")
    ∷ (0xcb07, named "SC2232H")
    ∷ (0xcb08, model 0x2320)
    ∷ (0xcb10, model 0x2239)
    ∷ (0xcb14, model 0x2335)
    ∷ (0xcb34, named "SC230AI")
    ∷ (0xcb5c, named "SC2331")
    ∷ (0xcb6a, named "SC231HAI")
    ∷ (0xcb17, by_vendor "Ingenic" "SC2332" "SC2232")
    ∷ (0xcb1c, by_vendor "SigmaStar" "SC200AI" "SC337H")
    ∷ (0xcc05, model 0x3235)
    ∷ (0xcc1a, model 0x3335)
    ∷ (0xcc40, named "SC301IoT")
    ∷ (0xcc41, model 0x3336)
    ∷ (0x9c41, named "SC3336P")
    ∷ (0xcd01, named "SC4335P")
    ∷ (0xcb3a, model 0x2336)
    ∷ (0xcb3e, named "SC223A")
    ∷ (0xcd2e, named "SC401AI")
    ∷ (0xcd6b, named "SC431AI")
    ∷ (0xce39, named "SC430AI")
    ∷ (0xce1a, model 0x5332)
    ∷ (0xce1f, named "SC501AI")
    ∷ (0xce50, named "SC5336")
    ∷ (0x8e39, named "SC530AI")
    ∷ (0xda23, unnamed)
    ∷ (0xdc42, unnamed)
    ∷ (0xda4d, named "SC1346")
    ∷ (0x9a4d, named "SC1A4T")
    ∷ (0x9c42, named "SC4336P")
    ∷ (0xc143, named "SC830AI")
    ∷ (0xc170, named "SC831AI")
    ∷ (0xbd1e, named "SC850SL")
    ∷ (0x8235, named "SC8238")
    ∷ (0x9b3a, named "SC2336P")
    ∷ (0xeb2c, named "SC2355")
    ∷ (0, refused)
    ∷ (0xffff, refused)
    ∷ []

-- The case that `switch (res)` takes; `refused` stands for the default too.
pub find_case : ℕ → List (ℕ × Case) → Case
find_case res [] = refused
find_case res ((id, c) ∷ rest) = if id == res then c else find_case res rest

module _ {S : Type 0} (hal : Hal S) (fd i2c_addr : ℕ) where
  pub run_case : Case → M S (Option Bool)
  run_case (model id) = name_it (codes "SC" ++ hex 4 id)
  run_case (named name) = name_it (codes name)
  run_case (overwritten name id) = do set_sensor_id (codes name); name_it (codes "SC" ++ hex 4 id)
  run_case (by_reg reg v name other) = do
    x ← i2c_read hal fd i2c_addr reg 2 1
    name_it (if x == v then codes name else codes other)
  run_case (by_vendor vendor name other) =
      name_it (if contains (codes vendor) hal.getchipvendor then codes name else codes other)
  run_case unnamed = accept
  run_case refused = refuse

  pub smartsens_switch : M S (Option Bool)
  unfolding cases find_case
  smartsens_switch = do
    high ← i2c_read hal fd i2c_addr 0x3107 2 1
    if high == minus_one then refuse else do
      lower ← i2c_read hal fd i2c_addr 0x3108 2 1
      if lower == minus_one
          then refuse
          else run_case (find_case (bit_or (u32 (high <<< 8)) lower) cases)

  pub detect_smartsens_sensor : M S Bool
  unfolding smartsens_switch run_case
  detect_smartsens_sensor = run_blocks (select hal fd i2c_addr behind smartsens_switch)
