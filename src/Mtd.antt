-- ===== src/Mtd.antt =====
-- src/mtd.c: writing a block of flash, and the walk over the partitions of /proc/mtd.
pub mod Write
pub mod Order
use ipctool.Base.{
  ℕ, zero, suc, ◌+◌, Bool, true, false, not, ◌&&◌, Option, none, some, List, [], ◌∷◌, ◌==◌, ltb,
  leb, u32, if◌then◌else◌, length,
}
use ipctool.Base.Bytes.{Bytes, codes, equal}

-- The calls of the system and of src/boards/xm.c. An `int` is its 32-bit pattern; a read that
-- fails is `none`.
pub record FlashCalls (S : Type 0) : Type 0 where
  pub open_mtd : S → ℕ → ℕ × S
  pub close : S → ℕ → S
  pub mem_unlock : S → ℕ → ℕ → ℕ → S
  pub mem_erase : S → ℕ → ℕ → ℕ → Bool × S
  pub lseek : S → ℕ → ℕ → S
  pub write : S → ℕ → Bytes → ℕ × S
  pub read : S → ℕ → ℕ → Option Bytes × S
  pub is_xm_board : S → Bool × S
  pub xm_flash_init : S → ℕ → Bool × S
  pub xm_unlock_and_erase : S → ℕ → ℕ → ℕ → Bool × S
  -- /dev/mtdN: size, erasesize and type, where it opens and the ioctl succeeds
  pub mem_get_info : S → ℕ → Option (ℕ × ℕ × ℕ) × S

-- With the static `xm_warning`.
pub record Flash (S : Type 0) : Type 0 where
  pub system : S
  pub xm_warning : Bool

-- A line of /proc/mtd with what `sscanf` fills in, and the partition's data.
pub record MtdEntry : Type 0 where
  pub number : ℕ
  pub part_name : Bytes
  pub info : Option (ℕ × ℕ × ℕ)

-- The number of bytes that came, and their comparison.
pub same_bytes : Option Bytes → Bytes → Bool
same_bytes none bytes = false
same_bytes (some got) bytes = length got == length bytes && equal got bytes

module _ {S : Type 0} (sys : FlashCalls S) where
  -- From the answer of MEMERASE on.
  pub xm_erased : ℕ → Bool × S → Bool → Bool × Flash S
  xm_erased fd (true, s) warned = (true, record { system = s; xm_warning = true })
  xm_erased fd (false, s) warned = (false, record { system = s; xm_warning = warned })

  pub xm_initialised : ℕ → ℕ → ℕ → Bool × S → Bool → Bool × Flash S
  unfolding xm_erased
  xm_initialised fd offset erasesize (true, s) warned =
      xm_erased fd (sys.xm_unlock_and_erase s fd offset erasesize) warned
  xm_initialised fd offset erasesize (false, s) warned =
      (false, record { system = s; xm_warning = warned })

  pub if_xm : ℕ → ℕ → ℕ → Bool × S → Bool → Bool × Flash S
  unfolding xm_initialised
  if_xm fd offset erasesize (true, s) warned =
      xm_initialised fd offset erasesize (sys.xm_flash_init s fd) warned
  if_xm fd offset erasesize (false, s) warned = (false, record { system = s; xm_warning = warned })

  pub after_erase : ℕ → ℕ → ℕ → Bool × S → Bool → Bool × Flash S
  unfolding if_xm
  after_erase fd offset erasesize (true, s) warned =
      (true, record { system = s; xm_warning = warned })
  after_erase fd offset erasesize (false, s) warned =
      if_xm fd offset erasesize (sys.is_xm_board s) warned

  -- true is 0, false is -1
  pub mtd_erase_block : ℕ → ℕ → ℕ → Flash S → Bool × Flash S
  unfolding after_erase
  mtd_erase_block fd offset erasesize m =
      after_erase fd offset erasesize
        (sys.mem_erase (sys.mem_unlock m.system fd offset erasesize) fd offset erasesize)
        m.xm_warning

  pub mtd_write_block : ℕ → ℕ → Bytes → S → Bool × S
  mtd_write_block fd offset bytes s =
      let r = sys.write (sys.lseek s fd offset) fd bytes in (r.0 == u32 (length bytes), r.1)

  pub mtd_verify_block : ℕ → ℕ → Bytes → S → Bool × S
  unfolding same_bytes
  mtd_verify_block fd offset bytes s =
      let r = sys.read (sys.lseek s fd offset) fd (length bytes) in (same_bytes r.0 bytes, r.1)

  -- Each step only where the one before succeeded.
  pub write_verified : ℕ → ℕ → Bytes → Bool × S → Bool × S
  unfolding mtd_verify_block
  write_verified fd offset bytes (true, s) = mtd_verify_block fd offset bytes s
  write_verified fd offset bytes (false, s) = (false, s)

  pub write_erased : ℕ → ℕ → Bytes → Bool × Flash S → Bool × Flash S
  unfolding write_verified mtd_write_block
  write_erased fd offset bytes (true, m) =
      let r = write_verified fd offset bytes (mtd_write_block fd offset bytes m.system) in
      (r.0, record m { system = r.1 })
  write_erased fd offset bytes (false, m) = (false, m)

  pub closed : ℕ → Bool × Flash S → Bool × Flash S
  closed fd (b, m) = (b, record m { system = sys.close m.system fd })

  unfoldable pub mtd_write : ℕ → ℕ → ℕ → Bytes → Flash S → Bool × Flash S
  unfolding closed write_erased mtd_erase_block
  mtd_write mtd offset erasesize bytes m =
      let (fd, s) = sys.open_mtd m.system mtd in
      let opened : Flash S = record m { system = s } in
      if ltb 0x7fff_ffff fd
      then (false, opened)
      else closed fd (write_erased fd offset bytes (mtd_erase_block fd offset erasesize opened))

  -- The lines, up to ten that `sscanf` takes.
  pub read_entries : ℕ → List (Option (ℕ × Bytes)) → S → List MtdEntry × S
  read_entries room [] s = ([], s)
  read_entries room (none ∷ lines) s = read_entries room lines s
  read_entries zero (some (n, name) ∷ lines) s = ([], s)
  read_entries (suc room) (some (n, name) ∷ lines) s =
      let r = sys.mem_get_info s n in
      let rest = read_entries room lines r.1 in
      (record { number = n; part_name = name; info = r.0 } ∷ rest.0, rest.1)

pub max_mtd : ℕ
max_mtd = 10

pub named : MtdEntry → Bytes → Bool
named e name = equal name e.part_name

-- The weird Anjoy order, and the one that it is brought to.
pub put_in_order : List MtdEntry → List MtdEntry
unfolding named
put_in_order (a ∷ b ∷ c ∷ d ∷ e ∷ rest) =
    if named a (codes "BOOT")
      && named b (codes "KERNEL")
      && named c (codes "SYSTEM")
      && named d (codes "UBOOT")
      && named e (codes "DATA")
    then a ∷ d ∷ b ∷ c ∷ e ∷ rest
    else a ∷ b ∷ c ∷ d ∷ e ∷ rest
put_in_order entries = entries

-- The calls of `cb`, until it answers false.
module _ {C : Type 0} (cb : ℕ → Bytes → ℕ × ℕ × ℕ → C → Bool × C) where
  pub go_on : Bool × C → (C → C) → C
  go_on (true, c) rest = rest c
  go_on (false, c) rest = c

  pub call_entry : MtdEntry → Option (ℕ × ℕ × ℕ) → (C → C) → C → C
  unfolding go_on
  call_entry e none rest c = rest c
  call_entry e (some mtd) rest c = go_on (cb e.number e.part_name mtd c) rest

  pub call_entries : List MtdEntry → C → C
  unfolding call_entry
  call_entries [] c = c
  call_entries (e ∷ entries) c = call_entry e e.info (call_entries entries) c

pub enum_mtd_info :
    {S C : Type 0}
    → FlashCalls S
    → (ℕ → Bytes → ℕ × ℕ × ℕ → C → Bool × C)
    → List (Option (ℕ × Bytes))
    → S
    → C
    → C × S
unfolding read_entries call_entries put_in_order max_mtd
enum_mtd_info sys cb lines s c =
    let r = read_entries sys max_mtd lines s in (call_entries cb (put_in_order r.0) c, r.1)
