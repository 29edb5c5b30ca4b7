-- ===== src/Sensors/Sony/Params/Rates.antt =====
-- The frame rate and the temperature that src/sensors.c reads off Sony registers.
use ipctool.Base.{ℕ, ◌+◌, ◌-◌, ◌*◌, ◌≤◌, ◌<◌, ◌≡◌, ◌⊎◌, arith, ltb, false}
use ipctool.Sensors.Sony.Params.{
  Temp, celsius, below_zero, tempc_ladder, sony_imx219_tempc, sony_imx291_fps,
}

-- The frame rate is 0, or `hmax` is 132000 divided by it, the line length for that rate.
pub sony_imx291_fps-line :
    (frsel hmax : ℕ)
    → (sony_imx291_fps frsel hmax ≡ 0) ⊎ (sony_imx291_fps frsel hmax * hmax ≡ 132000)
unfolding sony_imx291_fps
sony_imx291_fps-line frsel hmax = ground arith

-- The temperature above -100 degrees.
abbrev pub above : Temp → ℕ
above (celsius n) = 100 + n
above (below_zero n) = 100 - n

tempc_ladder-monotone :
    (code code' : ℕ)
    → code ≤ code'
    → (90 ≤ above (tempc_ladder code))
      × (above (tempc_ladder code) ≤ above (tempc_ladder code'))
      × (above (tempc_ladder code') ≤ 195)
unfolding tempc_ladder
tempc_ladder-monotone code code' h = ground arith

-- The temperature of register values does not fall as the value rises, and lies from -10 to 95
-- degrees.
pub sony_imx219_tempc-monotone :
    (code code' : ℕ)
    → code ≤ code'
    → code' < 0x8000_0000
    → (90 ≤ above (sony_imx219_tempc code))
      × (above (sony_imx219_tempc code) ≤ above (sony_imx219_tempc code'))
      × (above (sony_imx219_tempc code') ≤ 195)
unfolding sony_imx219_tempc
sony_imx219_tempc-monotone code code' h k =
    let low : ltb 0x7fff_ffff code ≡ false = ground (arith, h, k) in
    let low' : ltb 0x7fff_ffff code' ≡ false = ground (arith, k) in
    rw (low, low') (tempc_ladder-monotone code code' h)
