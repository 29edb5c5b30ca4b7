-- ===== src/Sensors/Sony/Params.antt =====
-- src/sensors.c: the parameters of Sony sensors. `sony_imx219_params` builds its JSON object and
-- drops it, so only its bus traffic is left.
pub mod Rates
use ipctool.Base.{
  ℕ, ◌/◌, bit_and, bit_or, ◌==◌, ltb, ◌<<<◌, u32, u16, Option, none, some, if◌then◌else◌,
}
use ipctool.Base.Bytes.{Bytes, codes}
use ipctool.Sensors.Bus.{Hal, M, ◌>>=◌, read, read_0, write_through}

-- An `int` result: a negative one is `below_zero n`, for -n.
pub data Temp : Type 0 where
  celsius below_zero : ℕ → Temp

-- The comparisons, of a code that is not negative.
pub tempc_ladder : ℕ → Temp
tempc_ladder code =
    if ltb code 6
    then below_zero 10
    else if ltb code 12
    then below_zero 5
    else if ltb code 18
    then celsius 0
    else if ltb code 24
    then celsius 5
    else if ltb code 30
    then celsius 10
    else if ltb code 36
    then celsius 15
    else if ltb code 43
    then celsius 20
    else if ltb code 49
    then celsius 25
    else if ltb code 55
    then celsius 30
    else if ltb code 61
    then celsius 35
    else if ltb code 67
    then celsius 40
    else if ltb code 73
    then celsius 45
    else if ltb code 79
    then celsius 50
    else if ltb code 85
    then celsius 55
    else if ltb code 91
    then celsius 60
    else if ltb code 97
    then celsius 65
    else if ltb code 104
    then celsius 70
    else if ltb code 110
    then celsius 75
    else if ltb code 116
    then celsius 80
    else if ltb code 122
    then celsius 85
    else if ltb code 128
    then celsius 90
    else celsius 95

-- The argument is an `int`, as its 32-bit pattern.
pub sony_imx219_tempc : ℕ → Temp
unfolding tempc_ladder
sony_imx219_tempc code = if ltb 0x7fff_ffff code then below_zero 10 else tempc_ladder code

pub sony_imx291_fps : ℕ → ℕ → ℕ
sony_imx291_fps frsel hmax =
    if frsel == 2
    then (if hmax == 0x1130 then 30 else if hmax == 0x14A0 then 25 else 0)
    else if frsel == 1
    then (if hmax == 0x0898 then 60 else if hmax == 0x0A50 then 50 else 0)
    else if frsel == 0
    then (if hmax == 0x044C then 120 else if hmax == 0x0528 then 100 else 0)
    else 0

pub sony_imx291_databus : ℕ → Option Bytes
sony_imx291_databus odbit =
    if odbit == 0
    then some (codes "Parallel CMOS SDR")
    else if odbit == 0xD
    then some (codes "LVDS 2 ch")
    else if odbit == 0xE
    then some (codes "LVDS 4 ch")
    else if odbit == 0xF
    then some (codes "LVDS 8 ch")
    else none

module _ {S : Type 0} (hal : Hal S) (fd i2c_addr : ℕ) where
  unfoldable pub sony_imx219_params : M S (Unit {0})
  sony_imx219_params = do
    _ ← write_through hal fd i2c_addr 0x140 2 0x80 1
    _ ← read_0 hal fd i2c_addr 0x140
    λ d. (tt, d)

  -- `frsel` is passed as a uint8_t and `hmax` as a uint16_t
  unfoldable pub sony_imx291_params : M S (Unit {0})
  sony_imx291_params = do
    adbit ← read hal fd i2c_addr 0x5
    odbit ← read hal fd i2c_addr 0x46
    frsel ← read hal fd i2c_addr 9
    msb ← read hal fd i2c_addr 0x1D
    lsb ← read hal fd i2c_addr 0x1C
    let hmax = bit_or (u32 (msb <<< 8)) lsb
    λ d. (
      tt,
      record d {
        ctx = record (d.ctx) {
          j_params = some (record {
            bitness = if bit_and adbit 1 == 1 then 12 else 10;
            databus = sony_imx291_databus (bit_and odbit 0xF0 / 16);
            fps = sony_imx291_fps (bit_and frsel 3) (u16 hmax);
          });
        };
      },
    )
