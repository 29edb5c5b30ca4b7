-- ===== src/Uboot/Env.antt =====
-- src/uboot.c: the environment's text, `uboot_env_get_param` and `uboot_setenv_cb`.
-- A pointer into a buffer is the list of the bytes from there on. Reads and writes that leave a
-- buffer are `overrun`: C leaves them undefined.
pub mod Text
pub mod Get
pub mod Spec
pub mod Set
pub mod Walk
pub mod Induct
pub mod RoundTrip
pub mod Size
pub mod Setenv
use ipctool.Base.{
  ℕ, zero, suc, ◌+◌, ◌-◌, Bool, true, false, ◌&&◌, ◌||◌, List, [], ◌∷◌, ◌++◌, Option, none, some,
  ◌==◌, ltb, leb, u8, ◌>>>◌, if◌then◌else◌, length, take, drop, replicate,
}
use ipctool.Base.Bytes.{Bytes, equal, starts_with}
use ipctool.Uboot.Crc.{crc32}
use ipctool.Uboot.Detect.{crc_sz}

push : ℕ → Option (Bytes × Bytes) → Option (Bytes × Bytes)
push c none = none
push c (some (text, rest)) = some (c ∷ text, rest)

-- The text up to the NUL, and what stands behind the NUL.
unfoldable pub cut : Bytes → Option (Bytes × Bytes)
unfolding push
cut [] = none
cut (zero ∷ bs) = some ([], bs)
cut (suc c ∷ bs) = push (suc c) (cut bs)

-- strchr(ptr, '='): the bytes in front of it and behind it
unfoldable pub split_eq : Bytes → Option (Bytes × Bytes)
unfolding push
split_eq [] = none
split_eq (c ∷ cs) = if c == b'=' then some ([], cs) else push c (split_eq cs)

pub data Lookup : Type 0 where
  value : Bytes → Lookup
  missing overrun : Lookup

c_str : Option (Bytes × Bytes) → Lookup
c_str none = overrun
c_str (some (text, rest)) = value text

-- The loop of `uboot_env_get_param`, with `fuel` rounds.
pub get_walk : ℕ → Bytes → Bytes → Lookup
unfolding c_str
get_walk zero param ptr = overrun
get_walk (suc fuel) param [] = overrun
get_walk (suc fuel) param (zero ∷ bs) = missing
get_walk (suc fuel) param (suc c ∷ bs) =
    let rest : Lookup = elim (cut (suc c ∷ bs)) [
      | none ↦ overrun
      | some (e, after) ↦ get_walk fuel param after
    ] in
    if starts_with param (suc c ∷ bs) then c_str (cut (drop (length param) (suc c ∷ bs))) else rest

-- snprintf(param, sizeof(param), "%s=", name) with a buffer of 1024 bytes
pub param_of : Bytes → Bytes
param_of name = take 1023 (name ++ b'=' ∷ [])

-- The statics `env_len` and `uenv`.
pub record Uboot : Type 0 where
  pub env_len : ℕ
  pub uenv : Option Bytes

-- `value` is the text at the returned pointer. A round takes at least one byte.
pub uboot_env_get_param : Uboot → Bytes → Lookup
unfolding get_walk param_of
uboot_env_get_param u name = elim u.uenv [
  | none ↦ missing
  | some env ↦ get_walk (length env) (param_of name) (drop crc_sz env)
]

pub data FlashOp : Type 0 where
  fop_interactive fop_ram fop_rom : FlashOp

-- memcpy of a text to `arr + pos`
pub write_at : Bytes → ℕ → Bytes → Option Bytes
write_at arr pos text =
    if leb (pos + length text) (length arr)
    then some (take pos arr ++ (text ++ drop (pos + length text) arr))
    else none

-- snprintf(arr + pos, length arr - pos, ..): at most the room is written, the NUL included.
-- With `pos` behind the end the room wraps round, and the write leaves the buffer.
pub snprintf_at : Bytes → ℕ → Bytes → Option Bytes
unfolding write_at
snprintf_at arr pos text =
    if leb (length arr) pos
    then (if pos == length arr then some arr else none)
    else write_at arr pos (take (length arr - pos - 1) text ++ 0 ∷ [])

-- How `uboot_setenv_cb` leaves its loop: `bailout`, or `rewrite` with the text of `uenv` or of
-- `newenv`, behind the checksum.
pub data Rewrite : Type 0 where
  bailout overrun : Rewrite
  old_env new_env : Bytes → Rewrite

pub data Step : Type 0 where
  stop : Rewrite → Step
  next : Bool → Bytes → ℕ → Step

unfoldable pub assign : Bytes → Bytes → Bytes
assign key newvalue = key ++ b'=' ∷ newvalue

pub placed : Option Bytes → Bool → ℕ → Step
placed none found pos = stop overrun
placed (some arr) found pos = next found arr pos

-- The new value is the old one.
pub same_value : FlashOp → Bytes → Rewrite
same_value fop_rom text = old_env text
same_value _ text = bailout

-- The round on the entry `e`; `front` stands before it in `uenv`, and `rest` behind its NUL.
pub set_entry : Bytes → Bytes → FlashOp → Bytes → Bytes → Bytes → Bool → Bytes → ℕ → Step
unfolding assign placed same_value
set_entry key newvalue fop front e rest found arr pos =
    if starts_with key e
    then elim (split_eq e) [
      | none ↦ stop bailout
      | some (name, oldvalue) ↦
          if length newvalue == length oldvalue
          then if equal newvalue oldvalue
            then stop (same_value fop (front ++ (e ++ 0 ∷ rest)))
            else stop (old_env (front ++ (assign name newvalue ++ 0 ∷ rest)))
          else if length newvalue == 0
          then next true arr pos
          else placed (snprintf_at arr pos (assign key newvalue)) true
              (pos + length (assign key newvalue) + 1)
    ]
    else placed (write_at arr pos e) found (pos + length e + 1)

pub appended : Option Bytes → Rewrite
appended none = overrun
appended (some arr) = new_env arr

-- Behind the last entry.
pub set_end : Bytes → Bytes → Bool → Bytes → ℕ → Rewrite
unfolding assign appended
set_end key newvalue true arr pos = new_env arr
set_end key newvalue false arr pos = appended (snprintf_at arr pos (assign key newvalue))

-- What follows a round.
pub after_round : (Bool → Bytes → ℕ → Rewrite) → Step → Rewrite
after_round later (stop r) = r
after_round later (next found arr pos) = later found arr pos

pub set_walk : ℕ → Bytes → Bytes → FlashOp → Bytes → Bytes → Bool → Bytes → ℕ → Rewrite
unfolding set_end after_round
set_walk zero key newvalue fop front ptr found arr pos = overrun
set_walk (suc fuel) key newvalue fop front [] found arr pos = overrun
set_walk (suc fuel) key newvalue fop front (zero ∷ bs) found arr pos =
    set_end key newvalue found arr pos
set_walk (suc fuel) key newvalue fop front (suc c ∷ bs) found arr pos = elim (cut (suc c ∷ bs)) [
  | none ↦ overrun
  | some (e, rest) ↦
      after_round
        (λ found' arr' pos'.
          set_walk fuel key newvalue fop (front ++ (e ++ 0 ∷ [])) rest found' arr' pos')
        (set_entry key newvalue fop front e rest found arr pos)
]

-- What a call leaves behind: the statics, and what `mtd_write` was given. `crash` is an access
-- outside a buffer or through NULL.
pub data Outcome : Type 0 where
  done : Uboot → Option Bytes → Outcome
  crash : Outcome

-- `uboot_copyenv_int`
unfoldable pub uboot_copyenv_int : Uboot → Option Bytes → Option Bytes
uboot_copyenv_int u buf = elim u.uenv [
  | some env ↦ some env
  | none ↦ elim buf [
    | none ↦ none
    | some bytes ↦ if leb u.env_len (length bytes) then some (take u.env_len bytes) else none
  ]
]

pub le_bytes : ℕ → ℕ → Bytes
le_bytes zero n = []
le_bytes (suc k) n = u8 n ∷ le_bytes k (n >>> 8)

-- `towrite` with its checksum, of `env_len - CRC_SZ` bytes, in front
pub checked : ℕ → ℕ → Bytes → Bytes → Option Bytes
unfolding le_bytes
checked word env_len sum text =
    if leb crc_sz env_len && leb env_len (length (sum ++ text))
    then some (le_bytes crc_sz (crc32 word (take (env_len - crc_sz) text) 0) ++ text)
    else none

-- memcpy(uenv, towrite, env_len)
pub copied : ℕ → Bytes → Bytes → Option Bytes
copied env_len env towrite =
    if leb env_len (length towrite) && leb env_len (length env)
    then some (take env_len towrite ++ drop env_len env)
    else none

pub kept : Uboot → Option Bytes → Option Bytes → Outcome
kept u none flash = crash
kept u (some env) flash = done (record u { uenv = some env }) flash

pub flashed : Uboot → (Bytes → Option Bytes) → Option Bytes → Outcome
unfolding kept
flashed u back none = crash
flashed u back (some towrite) = kept u (back towrite) (some (take u.env_len towrite))

-- The part behind the label `rewrite`; `sum` is the checksum that stands in front of `text`, and
-- `back` is what the text of `towrite` leaves in `uenv`.
pub rewrite : ℕ → Uboot → (Bytes → Option Bytes) → FlashOp → Bytes → Bytes → Outcome
unfolding checked flashed kept
rewrite word u back fop_ram sum text = kept u (back (sum ++ text)) none
rewrite word u back _ sum text = flashed u back (checked word u.env_len sum text)

-- `towrite` is `uenv` itself, or `newenv`, which is copied to it.
pub finish : ℕ → Uboot → FlashOp → Bytes → Rewrite → Outcome
unfolding rewrite copied
finish word u fop env bailout = done (record u { uenv = some env }) none
finish word u fop env overrun = crash
finish word u fop env (old_env text) = rewrite word u some fop (take crc_sz env) text
finish word u fop env (new_env text) =
    rewrite word u (copied u.env_len env) fop (replicate crc_sz 0) text

-- `calloc` succeeds. The loop's buffers begin behind the checksum.
pub uboot_setenv_cb : ℕ → Uboot → Option Bytes → Bytes → Bytes → FlashOp → Outcome
unfolding finish set_walk
uboot_setenv_cb word u buf key newvalue fop = elim (uboot_copyenv_int u buf) [
  | none ↦ crash
  | some env ↦ finish word u fop env (
      set_walk (length env) key newvalue fop [] (drop crc_sz env) false
        (replicate (u.env_len - crc_sz) 0) 0)
]

-- set_env_param_ram
pub set_env_param_ram : ℕ → Uboot → Bytes → Bytes → Outcome
unfolding uboot_setenv_cb
set_env_param_ram word u key newvalue = uboot_setenv_cb word u none key newvalue fop_ram
