-- ===== src/Tests/SensorRuns.antt =====
-- Sensor detection (src/sensors.c) on a platform whose sensor answers from a fixed register file.
use ipctool.Base.{
  ℕ, ◌+◌, ◌*◌, ◌≤◌, ◌⊎◌, arith, Bool, true, false, Option, some, none, List, [], ◌∷◌, ◌≡◌, inl,
  refl, ◌==◌, if◌then◌else◌,
}
use ipctool.Base.Bytes.{codes}
use ipctool.Sensors.Bus.{Hal, Dev, M, i2c_reader}
use ipctool.Sensors.Verdict.{Answer, Named}
use ipctool.Sensors.Soi.{detect_soi_sensor, detect_onsemi_sensor}
use ipctool.Sensors.Omni.{detect_omni_sensor}
use ipctool.Sensors.Omni.Naming.{detect_omni_sensor-Named}
use ipctool.Sensors.Sony.{detect_sony_sensor}
use ipctool.Sensors.Sony.Naming.{detect_sony_sensor-Named}
use ipctool.Sensors.Sony.Params.{sony_imx291_fps, sony_imx219_tempc}
use ipctool.Sensors.Sony.Params.Rates.{sony_imx291_fps-line, above, sony_imx219_tempc-monotone}
use ipctool.Sensors.Smartsens.{detect_smartsens_sensor}
use ipctool.Sensors.Smartsens.Naming.{
  detect_smartsens_sensor-Named, detect_smartsens_sensor-unnamed,
}
use ipctool.Sensors.Superpix.{detect_galaxycore_sensor, detect_superpix_sensor}
use ipctool.Sensors.Others.{
  detect_techpoint_adc, detect_imagedesign_sensor, detect_visemi_sensor, detect_cvsens_sensor,
}
use ipctool.Sensors.Naming.{small_vendors-Named}
use ipctool.Sensors.Probe.{
  SensorAddr, smartsens, detect_possible_sensors, get_sensor_id_i2c, vendors, getsensorid,
}
use ipctool.Sensors.Probe.Choice.{
  AtListed, Chosen, detect_possible_sensors-AtListed, get_sensor_id_i2c-Chosen,
}
use ipctool.Sensors.Probe.Outcome.{Controlled, getsensorid-Controlled}

-- A bus with one device, which answers at every address; a state is the number of reads so far.
abbrev platform : (ℕ → ℕ) → Hal ℕ
platform regs = record {
  open_i2c_sensor_fd = λ s nr. (3, s);
  open_spi_sensor_fd = none;
  close_sensor_fd = λ s fd. s;
  close = λ s fd. s;
  hal_cleanup = λ s. s;
  i2c_change_addr = λ s fd addr. (0, s);
  i2c_read_register = λ s fd addr reg reg_width data_width. (regs reg, s + 1);
  i2c_write_register = λ s fd addr reg reg_width value data_width. (0, s);
  spi_read_register = none;
  dummy_change_addr = 0;
  getchipvendor = codes "HiSilicon";
}

-- A register file with two values.
abbrev two_regs : ℕ → ℕ → ℕ → ℕ → ℕ → ℕ
two_regs r v r' v' reg = if reg == r then v else if reg == r' then v' else 0

abbrev start : Dev ℕ
start = record {
  bus = 0;
  ctx = record {
    sensor_id = [];
    control = [];
    vendor = [];
    addr = 0;
    reg_width = 0;
    data_width = 0;
    j_params = none;
  };
  reader = i2c_reader;
  writer_set = false;
  called_null = false;
  dummy_addr = false;
  i2c_adapter_nr = 0;
}

abbrev table : Option (List SensorAddr)
table = some (
    record { sensor_type = 4; addrs = 0x30 ∷ 0 ∷ [] } ∷ record { sensor_type = 0; addrs = [] } ∷ [])

abbrev sc2335 : Hal ℕ
sc2335 = platform (two_regs 0x3107 0x22 0x3108 0x35)

abbrev sc_unnamed : Hal ℕ
sc_unnamed = platform (two_regs 0x3107 0xda 0x3108 0x23)

abbrev imx178 : Hal ℕ
imx178 = platform (two_regs 0x33B4 0x96 0x316A 0x100)

abbrev ov2715 : Hal ℕ
ov2715 = platform (two_regs 0x300A 0x27 0x300B 0x15)

abbrev jxf22 : Hal ℕ
jxf22 = platform (two_regs 0xa 0xf 0xb 0x22)

detect_sony_sensor-Named_example : Answer Named (detect_sony_sensor imx178 3 0x1a) start
detect_sony_sensor-Named_example = detect_sony_sensor-Named imx178 3 0x1a start

detect_smartsens_sensor-Named_example : Answer Named (detect_smartsens_sensor sc2335 3 0x30) start
detect_smartsens_sensor-Named_example =
    detect_smartsens_sensor-Named sc2335 3 0x30 0x22 0x35
      (λ (e : 0x2235 ≡ 0xda23). omega (arith, e)) (λ (e : 0x2235 ≡ 0xdc42). omega (arith, e))
      (λ s. refl) (λ s. refl) start

detect_smartsens_sensor-unnamed_example :
    ((detect_smartsens_sensor sc_unnamed 3 0x30 start).0 ≡ true)
    × ((detect_smartsens_sensor sc_unnamed 3 0x30 start).1.ctx ≡ start.ctx)
detect_smartsens_sensor-unnamed_example =
    detect_smartsens_sensor-unnamed sc_unnamed 3 0x30 0xda 0x23 (inl (refl, refl)) (λ s. refl)
      (λ s. refl) (λ s. refl) start refl

detect_omni_sensor-Named_example : Answer Named (detect_omni_sensor ov2715 3 0x36) start
detect_omni_sensor-Named_example = detect_omni_sensor-Named ov2715 3 0x36 start

small_vendors-Named_example :
    Answer Named (detect_soi_sensor jxf22 3 0x40) start
    × Answer Named (detect_onsemi_sensor jxf22 3 0x40) start
    × Answer Named (detect_galaxycore_sensor jxf22 3 0x40) start
    × Answer Named (detect_superpix_sensor jxf22 3 0x40) start
    × Answer Named (detect_techpoint_adc jxf22 3 0x40) start
    × Answer Named (detect_imagedesign_sensor jxf22 3 0x40) start
    × Answer Named (detect_visemi_sensor jxf22 3 0x40) start
    × Answer Named (detect_cvsens_sensor jxf22 3 0x40) start
small_vendors-Named_example = small_vendors-Named jxf22 3 0x40 start

-- A detector that answers only at one address, and touches nothing.
abbrev at_30 : ℕ → M ℕ Bool
at_30 a d = (a == 0x30, d)

detect_possible_sensors-AtListed_example :
    Answer (AtListed table smartsens) (detect_possible_sensors table at_30 smartsens) start
detect_possible_sensors-AtListed_example =
    detect_possible_sensors-AtListed table at_30 smartsens (λ a d e. refl) start

get_sensor_id_i2c-Chosen_example :
    Answer (Chosen table (vendors sc2335 table)) (get_sensor_id_i2c sc2335 table) start
get_sensor_id_i2c-Chosen_example = get_sensor_id_i2c-Chosen sc2335 table start

getsensorid-Controlled_example :
    (getsensorid sc2335 table false start ≡ (some false, start))
    × Controlled (getsensorid sc2335 table true start).0 (getsensorid sc2335 table true start).1.ctx
getsensorid-Controlled_example = getsensorid-Controlled sc2335 table start

sony_imx291_fps-line_example :
    (sony_imx291_fps 1 2200 ≡ 0) ⊎ (sony_imx291_fps 1 2200 * 2200 ≡ 132000)
sony_imx291_fps-line_example = sony_imx291_fps-line 1 2200

sony_imx219_tempc-monotone_example :
    (90 ≤ above (sony_imx219_tempc 17))
    × (above (sony_imx219_tempc 17) ≤ above (sony_imx219_tempc 40))
    × (above (sony_imx219_tempc 40) ≤ 195)
sony_imx219_tempc-monotone_example = sony_imx219_tempc-monotone 17 40 (omega arith) (omega arith)
