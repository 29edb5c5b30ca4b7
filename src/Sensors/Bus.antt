-- ===== src/Sensors/Bus.antt =====
-- The state that sensor detection works on, the hardware access layer that it calls through
-- function pointers (src/hal/common.h), and the monad of the detection code (src/sensors.c).
-- An `int` is its 32-bit pattern, and -1 is `minus_one`.
use ipctool.Base.{ℕ, ◌+◌, Bool, true, false, Option, none, some, ◌==◌, ltb, if◌then◌else◌}
use ipctool.Base.Bytes.{Bytes}

-- What `sony_imx291_params` puts into `j_params`.
pub record Params : Type 0 where
  pub bitness : ℕ
  pub databus : Option Bytes
  pub fps : ℕ

-- sensor_ctx_t
pub record SensorCtx : Type 0 where
  pub sensor_id : Bytes
  pub control : Bytes
  pub vendor : Bytes
  pub addr : ℕ
  pub reg_width : ℕ
  pub data_width : ℕ
  pub j_params : Option Params

-- The platform's functions behind the pointers of hal/common.h, over the platform's state: the
-- arguments are those of the C functions, `fd` first.
pub record Hal (S : Type 0) : Type 0 where
  pub open_i2c_sensor_fd : S → ℕ → ℕ × S
  pub open_spi_sensor_fd : Option (S → ℕ × S)
  pub close_sensor_fd : S → ℕ → S
  pub close : S → ℕ → S
  pub hal_cleanup : S → S
  pub i2c_change_addr : S → ℕ → ℕ → ℕ × S
  pub i2c_read_register : S → ℕ → ℕ → ℕ → ℕ → ℕ → ℕ × S
  pub i2c_write_register : S → ℕ → ℕ → ℕ → ℕ → ℕ → ℕ → ℕ × S
  pub spi_read_register : Option (S → ℕ → ℕ → ℕ → ℕ → ℕ → ℕ × S)
  -- `dummy_change_addr` returns no value: what the caller then reads
  pub dummy_change_addr : ℕ
  pub getchipvendor : Bytes

-- The pointer `sensor_read_register`.
pub data Reader : Type 0 where
  i2c_reader spi_reader : Reader

-- The platform's state, the caller's context, and the statics of sensors.c and hal/common.c that
-- detection assigns: `dummy_addr` says that `i2c_change_addr` is `dummy_change_addr`.
pub record Dev (S : Type 0) : Type 0 where
  pub bus : S
  pub ctx : SensorCtx
  pub reader : Reader
  -- sensor_write_register is not NULL; a call of it through NULL ends the process, which is noted in
  -- `called_null`, and what the model does behind it means nothing.
  pub writer_set : Bool
  pub called_null : Bool
  pub dummy_addr : Bool
  pub i2c_adapter_nr : ℕ

abbrev pub M : Type 0 → Type 0 → Type 0
M S A = Dev S → A × Dev S

end : Option Bool → Bool
end none = false
end (some v) = v

module _ {S : Type 0} where
  infixl 5 ◌>>=◌ ◌>>◌
  unfoldable pub ◌>>=◌ : {A B : Type 0} → M S A → (A → M S B) → M S B
  ◌>>=◌ m f d = let r = m d in f r.0 r.1

  abbrev pub ◌>>◌ : {B : Type 0} → M S (Unit {0}) → M S B → M S B
  m >> k = m >>= λ _. k

  unfoldable pub pure : {A : Type 0} → A → M S A
  pure a d = (a, d)

  -- && with the second operand run only if the first holds
  infixr 35 ◌&&&◌
  unfoldable pub ◌&&&◌ : M S Bool → M S Bool → M S Bool
  unfolding pure ◌>>=◌
  m &&& k = m >>= λ b. if b then k else pure false

  -- sprintf(ctx->sensor_id, ..)
  unfoldable pub set_sensor_id : Bytes → M S (Unit {0})
  set_sensor_id name d = (tt, record d { ctx = record (d.ctx) { sensor_id = name } })

  -- A block of a detector is an `M S (Option Bool)`: `some r` is `return r`, and `none` goes on
  -- behind the block.
  unfoldable pub go_on : M S (Option Bool)
  unfolding pure
  go_on = pure none

  -- return false;
  unfoldable pub refuse : M S (Option Bool)
  unfolding pure
  refuse = pure (some false)

  -- return true;
  unfoldable pub accept : M S (Option Bool)
  unfolding pure
  accept = pure (some true)

  -- if (test) body; the block is left by `body` or passed
  abbrev pub on : Bool → M S (Option Bool) → M S (Option Bool)
  on test body = if test then body else go_on

  -- sprintf(ctx->sensor_id, name); return true;
  unfoldable pub name_it : Bytes → M S (Option Bool)
  unfolding ◌>>=◌ set_sensor_id accept
  name_it name = do set_sensor_id name; accept

  continue : Option Bool → M S (Option Bool) → M S (Option Bool)
  continue (some v) rest d = (some v, d)
  continue none rest d = rest d

  -- `rest` behind a block
  infixr 3 ◌behind◌
  unfoldable pub ◌behind◌ : M S (Option Bool) → M S (Option Bool) → M S (Option Bool)
  unfolding continue
  ◌behind◌ block rest d = let r = block d in continue r.0 rest r.1

  -- The body of a detector, with `return false` behind its last block.
  unfoldable pub run_blocks : M S (Option Bool) → M S Bool
  unfolding end ◌behind◌ name_it go_on refuse ◌&&&◌
  run_blocks block d = let r = block d in (end r.0, r.1)

module _ {S : Type 0} (hal : Hal S) where
  change_addr_by : Bool → S → ℕ → ℕ → ℕ × S
  change_addr_by true bus fd addr = (hal.dummy_change_addr, bus)
  change_addr_by false bus fd addr = hal.i2c_change_addr bus fd addr

  -- i2c_change_addr(fd, addr) through the pointer
  unfoldable pub change_addr : ℕ → ℕ → M S ℕ
  unfolding change_addr_by
  change_addr fd addr d =
      let r = change_addr_by d.dummy_addr d.bus fd addr in (r.0, record d { bus = r.1 })

  -- if (i2c_change_addr(fd, i2c_addr) < 0) return false;
  unfoldable pub select : ℕ → ℕ → M S (Option Bool)
  unfolding change_addr
  select fd addr = do r ← change_addr fd addr; if ltb 0x7fff_ffff r then refuse else go_on

  -- i2c_read_register(fd, i2c_addr, reg, reg_width, data_width)
  unfoldable pub i2c_read : ℕ → ℕ → ℕ → ℕ → ℕ → M S ℕ
  i2c_read fd addr reg reg_width data_width d =
      let r = hal.i2c_read_register d.bus fd addr reg reg_width data_width in
      (r.0, record d { bus = r.1 })

  -- i2c_write_register(fd, i2c_addr, reg, reg_width, value, data_width)
  unfoldable pub i2c_write : ℕ → ℕ → ℕ → ℕ → ℕ → ℕ → M S ℕ
  i2c_write fd addr reg reg_width value data_width d =
      let r = hal.i2c_write_register d.bus fd addr reg reg_width value data_width in
      (r.0, record d { bus = r.1 })

  -- sensor_write_register(fd, i2c_addr, reg, reg_width, value, data_width), through the pointer
  unfoldable pub write_through : ℕ → ℕ → ℕ → ℕ → ℕ → ℕ → M S ℕ
  unfolding i2c_write
  write_through fd addr reg reg_width value data_width d =
      if d.writer_set
      then i2c_write fd addr reg reg_width value data_width d
      else (0, record d { called_null = true })

  read_by : Reader → S → ℕ → ℕ → ℕ → ℕ × S
  read_by i2c_reader bus fd addr reg = hal.i2c_read_register bus fd addr reg 2 1
  read_by spi_reader bus fd addr reg = elim hal.spi_read_register [
    | none ↦ (0, bus)
    | some read ↦ read bus fd addr reg 2 1
  ]

  -- READ_0: sensor_read_register(fd, i2c_addr, addr, 2, 1) through the pointer. `get_sensor_id_spi`
  -- sets the pointer only where `spi_read_register` is not NULL.
  unfoldable pub read_0 : ℕ → ℕ → ℕ → M S ℕ
  unfolding read_by
  read_0 fd addr reg d = let r = read_by d.reader d.bus fd addr reg in (r.0, record d { bus = r.1 })

  -- READ(addr)
  abbrev pub read : ℕ → ℕ → ℕ → M S ℕ
  read fd addr reg = read_0 fd addr (reg + 0x3000)

  -- READ(reg) == value
  unfoldable pub read_is : ℕ → ℕ → ℕ → ℕ → M S Bool
  unfolding read_0 ◌>>=◌ pure
  read_is fd addr reg value = do v ← read fd addr reg; pure (v == value)
