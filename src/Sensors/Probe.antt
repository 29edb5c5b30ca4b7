-- ===== src/Sensors/Probe.antt =====
-- src/sensors.c: `detect_possible_sensors`, `get_sensor_id_i2c`, `get_sensor_id_spi` and
-- `getsensorid`, over the platform's table `possible_i2c_addrs` (src/hal/common.h).
pub mod Choice
pub mod Outcome
use ipctool.Base.{
  ℕ, zero, suc, Bool, true, false, Option, some, none, List, [], ◌∷◌, ltb, ◌==◌, if◌then◌else◌,
  minus_one, String,
}
use ipctool.Base.Bytes.{Bytes, codes}
use ipctool.Sensors.Bus.{SensorCtx, Hal, Dev, M, ◌>>=◌, ◌>>◌, pure, i2c_reader, spi_reader, Reader}
use ipctool.Sensors.Soi.{detect_soi_sensor, detect_onsemi_sensor}
use ipctool.Sensors.Omni.{detect_omni_sensor}
use ipctool.Sensors.Sony.{detect_sony_sensor}
use ipctool.Sensors.Smartsens.{detect_smartsens_sensor}
use ipctool.Sensors.Superpix.{detect_galaxycore_sensor, detect_superpix_sensor}
use ipctool.Sensors.Others.{
  detect_techpoint_adc, detect_imagedesign_sensor, detect_visemi_sensor, detect_cvsens_sensor,
}

-- enum SENSORS; a table row of type 0 ends the table.
pub data SensorType : Type 0 where
  onsemi soi sony smartsens omnivision brigates galaxycore superpix : SensorType
  techpoint imagedesign visemi cvsens : SensorType

abbrev pub type_code : SensorType → ℕ
type_code onsemi = 1
type_code soi = 2
type_code sony = 3
type_code smartsens = 4
type_code omnivision = 5
type_code brigates = 6
type_code galaxycore = 7
type_code superpix = 8
type_code techpoint = 9
type_code imagedesign = 10
type_code visemi = 11
type_code cvsens = 12

-- sensor_addr_t; `addrs` is the array up to its 0 or its end
pub record SensorAddr : Type 0 where
  pub sensor_type : ℕ
  pub addrs : List ℕ

module _ {S : Type 0} where
  abbrev pub modify_ctx : (SensorCtx → SensorCtx) → M S (Unit {0})
  modify_ctx f d = (tt, record d { ctx = f d.ctx })

  abbrev pub set_vendor : Bytes → M S (Unit {0})
  set_vendor v = modify_ctx (λ c. record c { vendor = v })

  -- the inner loop, over the addresses of one row
  pub try_addrs : (ℕ → M S Bool) → List ℕ → M S Bool
  try_addrs detect_fn [] d = (false, d)
  try_addrs detect_fn (zero ∷ addrs) d = (false, d)
  try_addrs detect_fn (suc n ∷ addrs) d =
      let r = detect_fn (suc n) d in
      elim r.0 [
        | true ↦ (true, record (r.1) { ctx = record (r.1.ctx) { addr = suc n } })
        | false ↦ try_addrs detect_fn addrs r.1
      ]

  -- if (sdata->sensor_type == type) ..
  pub try_row : (ℕ → M S Bool) → ℕ → SensorAddr → M S Bool
  unfolding try_addrs
  try_row detect_fn type row d =
      if row.sensor_type == type then try_addrs detect_fn row.addrs d else (false, d)

  -- the outer loop, over the rows
  pub try_rows : (ℕ → M S Bool) → ℕ → List SensorAddr → M S Bool
  try_rows detect_fn type [] d = (false, d)
  try_rows detect_fn type (row ∷ rows) d =
      let r = try_row detect_fn type row d in
      let rest = try_rows detect_fn type rows r.1 in
      if row.sensor_type == 0 then (false, d) else if r.0 then (true, r.1) else rest

  pub detect_possible_sensors : Option (List SensorAddr) → (ℕ → M S Bool) → SensorType → M S Bool
  unfolding try_rows try_row
  detect_possible_sensors none detect_fn type d = (false, d)
  detect_possible_sensors (some rows) detect_fn type d = try_rows detect_fn (type_code type) rows d

-- One `else if` of `get_sensor_id_i2c`: the detector and its type, and what a hit sets.
pub record Vendor (S : Type 0) : Type 0 where
  pub detect : ℕ → ℕ → M S Bool
  pub kind : SensorType
  pub name : Bytes
  pub settle : SensorCtx → SensorCtx

module _ {S : Type 0} (hal : Hal S) (possible_i2c_addrs : Option (List SensorAddr)) where
  abbrev same : SensorCtx → SensorCtx
  same c = c

  abbrev narrow_reg : SensorCtx → SensorCtx
  narrow_reg c = record c { reg_width = 1 }

  abbrev wide_data : SensorCtx → SensorCtx
  wide_data c = record c { data_width = 2 }

  abbrev vendor :
      (Hal S → ℕ → ℕ → M S Bool) → SensorType → String → (SensorCtx → SensorCtx) → Vendor S
  vendor detect kind name settle = record {
    detect = detect hal;
    kind = kind;
    name = codes name;
    settle = settle;
  }

  -- the chain of tests, in the order of the source
  pub vendors : List (Vendor S)
  vendors =
      vendor detect_soi_sensor soi "Silicon Optronics" narrow_reg
      ∷ vendor detect_onsemi_sensor onsemi "ON Semiconductor" wide_data
      ∷ vendor detect_omni_sensor omnivision "OmniVision" same
      ∷ vendor detect_sony_sensor sony "Sony" same
      ∷ vendor detect_smartsens_sensor smartsens "SmartSens" same
      ∷ vendor detect_galaxycore_sensor galaxycore "GalaxyCore" narrow_reg
      ∷ vendor detect_superpix_sensor superpix "SuperPix" narrow_reg
      ∷ vendor detect_techpoint_adc techpoint "TechPoint" same
      ∷ vendor detect_imagedesign_sensor imagedesign "ImageDesign" same
      ∷ vendor detect_visemi_sensor visemi "ViSemi" same
      ∷ vendor detect_cvsens_sensor cvsens "CVSENS" same
      ∷ []

  -- strcpy(ctx->vendor, ..); and the widths
  pub hit : Vendor S → M S (Unit {0})
  hit v = modify_ctx (λ c. v.settle (record c { vendor = v.name }))

  pub run_chain : ℕ → List (Vendor S) → M S Bool
  unfolding hit
  run_chain fd [] d = (false, d)
  run_chain fd (v ∷ vs) d =
      let r = detect_possible_sensors possible_i2c_addrs (v.detect fd) v.kind d in
      let rest = run_chain fd vs r.1 in if r.0 then (true, (hit v r.1).1) else rest

  pub open_i2c : M S ℕ
  open_i2c d =
      let r = hal.open_i2c_sensor_fd d.bus d.i2c_adapter_nr in (r.0, record d { bus = r.1 })

  -- sensor_read_register and sensor_write_register
  pub set_reader : Reader → M S (Unit {0})
  set_reader r d = (tt, record d { reader = r; writer_set = true })

  close_i2c : ℕ → M S (Unit {0})
  close_i2c fd d = (tt, record d { bus = hal.hal_cleanup (hal.close_sensor_fd d.bus fd) })

  pub get_sensor_id_i2c : M S Bool
  unfolding open_i2c set_reader close_i2c
  get_sensor_id_i2c = do
    fd ← open_i2c
    if fd == minus_one
        then pure false
        else do set_reader i2c_reader; detected ← run_chain fd vendors; close_i2c fd; pure detected

  -- from the opened device on: the pointers, the Sony detector at address 0, close
  spi_probe : ℕ → M S Bool
  spi_probe fd = do
    (λ d. (tt, record d { reader = spi_reader; dummy_addr = true }))
    res ← detect_sony_sensor hal fd 0
    if res then set_vendor (codes "Sony") else pure tt
    (λ d. (tt, record d { bus = hal.close d.bus fd }))
    pure res

  pub get_sensor_id_spi : M S Bool
  unfolding spi_probe
  get_sensor_id_spi d = elim hal.open_spi_sensor_fd [
    | none ↦ (false, d)
    | some open_spi ↦ elim hal.spi_read_register [
      | none ↦ (false, d)
      | some _ ↦
          let r = open_spi d.bus in
          let opened = record d { bus = r.1 } in
          if ltb 0x7fff_ffff r.0 then (false, opened) else spi_probe r.0 opened
    ]
  ]

  -- One adapter, I2C first: `some b` is `return b`, and `none` goes on.
  pub try_adapter : M S (Option Bool)
  unfolding open_i2c
  try_adapter = do
    fd ← open_i2c
    if fd == 0 then pure (some false) else do
      modify_ctx (λ c. record c { data_width = 1; reg_width = 2 })
      i2c_detected ← get_sensor_id_i2c
      if i2c_detected
          then (do modify_ctx (λ c. record c { control = codes "i2c" }); pure (some true))
          else do
            spi_detected ← get_sensor_id_spi
            if spi_detected
                then (do modify_ctx (λ c. record c { control = codes "spi" }); pure (some true))
                else pure none

  -- for (i = 0; i <= 5; i++) if (i != current) { i2c_adapter_nr = i; .. }
  try_adapters : ℕ → List ℕ → M S (Option Bool)
  try_adapters current [] d = (none, d)
  try_adapters current (i ∷ is) d = elim (i == current) [
    | true ↦ try_adapters current is d
    | false ↦
        let r = try_adapter (record d { i2c_adapter_nr = i }) in
        elim r.0 [ some v ↦ (some v, r.1) | none ↦ try_adapters current is r.1 ]
  ]

  -- `none`: the end of the function is reached, and there is no return value. `known` is
  -- `getchipname() != NULL`.
  pub getsensorid : Bool → M S (Option Bool)
  unfolding try_adapters
  getsensorid known d =
      if known
      then (let r = try_adapter d in
          elim r.0 [
            | some v ↦ (some v, r.1)
            | none ↦ try_adapters d.i2c_adapter_nr (0 ∷ 1 ∷ 2 ∷ 3 ∷ 4 ∷ 5 ∷ []) r.1
          ])
      else (some false, d)
