-- ===== src/Pinmux/Gpio.antt =====
-- src/reginfo.c: `get_chip_gpio_adress`, `gpio_manipulate` and the commands `gpio get`, `gpio set` and
-- `gpio mux`.
pub mod Address
pub mod Direction
pub mod Safe
use ipctool.Base.{
  ℕ, zero, suc, ◌+◌, ◌-◌, ◌*◌, ◌/◌, ◌%◌, ◌^◌, bit_or, Bool, true, false, not, ◌||◌, ◌&&◌, Option,
  none, some, List, [], ◌∷◌, String, ◌==◌, ltb, leb, u32, if◌then◌else◌, minus_one, ◌<<<◌, ◌>>>◌,
}
use ipctool.Base.Bytes.{Bytes, codes, equal}
use ipctool.Memory.{
  DevMem, MemState, RegOp, op_read, op_write, Access, done, no_access, fault, mem_reg,
}
use ipctool.Pinmux.Select.{is_chip, is_16ev300, is_16dv200}
use ipctool.Pinmux.Mux.{Exit, success, failure, exited, crash, Scan, gpio_mux_by, write_exit}

-- GPIO_Base, GPIO_Offset and GPIO_Groups
pub record Blocks : Type 0 where
  pub gpio_base : ℕ
  pub gpio_offset : ℕ
  pub gpio_groups : ℕ

pub blocks : ℕ → ℕ → ℕ → Option Blocks
blocks base offset groups =
    some (record { gpio_base = base; gpio_offset = offset; gpio_groups = groups })

unfoldable pub get_chip_gpio_adress : ℕ → Bytes → Option Blocks
unfolding blocks
get_chip_gpio_adress generation c =
    if generation == 0x35180100
    then blocks 0x20140000 0x10000 12
    else if generation == 0x3516A100
    then blocks 0x20140000 0x10000 (if is_chip c ("3516AV100" ∷ []) then 17 else 15)
    else if generation == 0x3518E200
    then blocks 0x20140000 0x10000 9
    else if generation == 0x35190101
    then blocks 0x12140000 0x1000 16
    else if generation == 0x3516C300
    then blocks 0x12140000 0x1000 9
    else if generation == 0x3516C500
    then blocks 0x120D0000 0x1000 12
    else if generation == 0x3516C610
    then blocks 0x11090000 0x1000 11
    else if generation == 0x3516E300
    then blocks 0x120B0000 0x1000 (if is_16ev300 c || is_16dv200 c then 10 else 9)
    else if generation == 0x3536C100
    then blocks 0x12150000 0x10000 14
    else if generation == 0x3536D100
    then blocks 0x12150000 0x10000 6
    else none

-- An `int` below 0, and its quotient and remainder by 8, which round towards 0.
pub negative : ℕ → Bool
negative n = ltb 0x7fff_ffff n

pub quot_8 : ℕ → ℕ
unfolding negative
quot_8 n = if negative n then u32 (0x1_0000_0000 - (0x1_0000_0000 - n) / 8) else n / 8

pub rem_8 : ℕ → ℕ
unfolding negative
rem_8 n = if negative n then u32 (0x1_0000_0000 - (0x1_0000_0000 - n) % 8) else n % 8

-- a > b, for a `b` that is not below 0
pub exceeds : ℕ → ℕ → Bool
unfolding negative
exceeds a b = not (negative a) && ltb b a

-- group and num
unfoldable pub place : Scan → Bytes → ℕ × ℕ
unfolding quot_8 rem_8
place scan gpio_num = elim (scan.scan_pair gpio_num) [
  | some p ↦ p
  | none ↦ let n = u32 (scan.strtoul_10 gpio_num) in (quot_8 n, rem_8 n)
]

-- The word of the group's block that stands for the pin alone, and the group's directions.
unfoldable pub data_address : Blocks → ℕ → ℕ → ℕ
data_address b group num = u32 (b.gpio_base + group * b.gpio_offset + 2 ^ u32 (2 + num))

unfoldable pub direction_address : Blocks → ℕ → ℕ
direction_address b group = u32 (b.gpio_base + group * b.gpio_offset + 0x400)

-- direct |= 1UL << num
pub make_output : ℕ → ℕ → ℕ
make_output direct num = bit_or direct (2 ^ num)

-- A shift by a number below 0 is undefined, so it is a crash below.
module _ {S : Type 0} (dev : DevMem S) where
  pub write_level : Blocks → ℕ → ℕ → ℕ → MemState S → Exit × MemState S
  unfolding data_address
  write_level b group num val m =
      write_exit dev (mem_reg dev (op_write (val * 2 ^ num)) (data_address b group num) m)

  -- What follows the write of the directions.
  pub after_direction : Blocks → ℕ → ℕ → ℕ → Access × MemState S → Exit × MemState S
  unfolding write_level
  after_direction b group num val (done v, m) = write_level b group num val m
  after_direction b group num val (no_access, m) = (failure, m)
  after_direction b group num val (fault, m) = (crash, m)

  -- What follows the read of the directions.
  pub with_direction : Blocks → ℕ → ℕ → ℕ → Access × MemState S → Exit × MemState S
  unfolding write_level after_direction make_output direction_address negative
  with_direction b group num val (done (some direct), m) =
      if negative num
      then (crash, m)
      else if (direct >>> num) % 2 == 0
      then after_direction b group num val
          (mem_reg dev (op_write (make_output direct num)) (direction_address b group) m)
      else write_level b group num val m
  with_direction b group num val (done none, m) = (crash, m)
  with_direction b group num val (no_access, m) = (failure, m)
  with_direction b group num val (fault, m) = (crash, m)

  -- if (set_op)
  pub set_level : Scan → Blocks → ℕ → ℕ → Bytes → MemState S → Exit × MemState S
  unfolding with_direction direction_address
  set_level scan b group num arg m =
      let val = u32 (scan.strtoul_10 arg) in
      if ltb 1 val
      then (failure, m)
      else with_direction b group num val (mem_reg dev op_read (direction_address b group) m)

  -- With what `gpio get` prints.
  pub shown : Access × MemState S → (Exit × Option ℕ) × MemState S
  shown (done (some val), m) = ((success, some (if val == 0 then 0 else 1)), m)
  shown (done none, m) = ((crash, none), m)
  shown (no_access, m) = ((failure, none), m)
  shown (fault, m) = ((crash, none), m)

  pub get_level : Blocks → ℕ → ℕ → MemState S → (Exit × Option ℕ) × MemState S
  unfolding data_address shown
  get_level b group num m = shown (mem_reg dev op_read (data_address b group num) m)

  pub silent : Exit × MemState S → (Exit × Option ℕ) × MemState S
  silent (e, m) = ((e, none), m)

  -- From the test of the group and the number on.
  -- `some arg` is the new level's argument, `none` is a `set_op` of false.
  pub manipulate_at :
      Scan → Blocks → ℕ × ℕ → Option Bytes → MemState S → (Exit × Option ℕ) × MemState S
  unfolding exceeds negative set_level get_level silent
  manipulate_at scan b (group, num) level m =
      if exceeds group b.gpio_groups || exceeds num 7
      then ((failure, none), m)
      else if negative (u32 (2 + num))
      then ((crash, none), m)
      else elim level [
        | some arg ↦ silent (set_level scan b group num arg m)
        | none ↦ get_level b group num m
      ]

  -- What `gpio_mux_by` answers is not looked at, but it may have ended the process.
  pub after_mux :
      Scan → Blocks → ℕ × ℕ → Option Bytes → Exit × MemState S → (Exit × Option ℕ) × MemState S
  unfolding manipulate_at
  after_mux scan b p level (exited, m) = ((exited, none), m)
  after_mux scan b p level (crash, m) = ((crash, none), m)
  after_mux scan b p level (success, m) = manipulate_at scan b p level m
  after_mux scan b p level (failure, m) = manipulate_at scan b p level m

  pub manipulate_in :
      Scan
      → ℕ
      → Bytes
      → Bytes
      → Option Bytes
      → Option Blocks
      → MemState S
      → (Exit × Option ℕ) × MemState S
  unfolding after_mux place
  manipulate_in scan generation c gpio_num level none m = ((failure, none), m)
  manipulate_in scan generation c gpio_num level (some b) m =
      after_mux scan b (place scan gpio_num) level
        (gpio_mux_by dev scan generation c gpio_num minus_one none m)

  pub gpio_manipulate :
      Scan → ℕ → Bytes → Bytes → Option Bytes → MemState S → (Exit × Option ℕ) × MemState S
  unfolding manipulate_in
  gpio_manipulate scan generation c gpio_num level m =
      manipulate_in scan generation c gpio_num level (get_chip_gpio_adress generation c) m

  -- The arguments behind the command's name.
  pub gpio_get_cmd : Scan → ℕ → Bytes → List Bytes → MemState S → (Exit × Option ℕ) × MemState S
  unfolding gpio_manipulate
  gpio_get_cmd scan generation c (gpio_num ∷ []) m =
      gpio_manipulate scan generation c gpio_num none m
  gpio_get_cmd scan generation c _ m = ((failure, none), m)

  pub gpio_set_cmd : Scan → ℕ → Bytes → List Bytes → MemState S → (Exit × Option ℕ) × MemState S
  unfolding gpio_manipulate
  gpio_set_cmd scan generation c (gpio_num ∷ level ∷ []) m =
      gpio_manipulate scan generation c gpio_num (some level) m
  gpio_set_cmd scan generation c _ m = ((failure, none), m)

  pub is_digit : Bytes → Bool
  is_digit [] = false
  is_digit (c ∷ cs) = leb 48 c && leb c 57

  pub gpio_mux_cmd : Scan → ℕ → Bytes → List Bytes → MemState S → Exit × MemState S
  unfolding is_digit
  gpio_mux_cmd scan generation c (gpio ∷ []) m =
      gpio_mux_by dev scan generation c gpio minus_one none m
  gpio_mux_cmd scan generation c (gpio ∷ func ∷ []) m =
      let func_num = if is_digit func then u32 (scan.strtoul_10 func) else minus_one in
      gpio_mux_by dev scan generation c gpio func_num (some func) m
  gpio_mux_cmd scan generation c _ m = (failure, m)
