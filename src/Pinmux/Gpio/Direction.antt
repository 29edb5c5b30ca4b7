-- ===== src/Pinmux/Gpio/Direction.antt =====
-- The register accesses of `gpio set`, and the bit that it sets in a group's directions.
use ipctool.Base.{◌≢◌, true, ◌==◌, some, if◌then◌else◌, ℕ, ◌+◌, ◌*◌, ◌/◌, ◌%◌, ◌^◌, ◌<◌, ◌≡◌}
use ipctool.Base.Bytes.{Bytes}
use ipctool.Memory.{DevMem, Window, MemState, in_cache}
use ipctool.Memory.Cache.{IsPageSize, Held}
use ipctool.Pinmux.Gpio.{Blocks, get_chip_gpio_adress, data_address, direction_address}

-- What `gpio set` does to the system: it reads the group's directions, sets the pin's bit of them
-- where it is 0, and writes the pin's level to the word that stands for the pin alone.
abbrev pub driven : {S : Type 0} → DevMem S → Blocks → ℕ → ℕ → ℕ → S → S
driven dev b group num val s =
    let r = dev.load s (direction_address b group) in
    let t =
      if r.0 / 2 ^ num % 2 == 0
      then dev.store r.1 (direction_address b group) (r.0 + 2 ^ num)
      else r.1 in
    dev.store t (data_address b group num) (val * 2 ^ num)

module _ {S : Type 0} (dev : DevMem S) (paged : IsPageSize dev.page_size) (generation : ℕ)
    (c : Bytes) (b : Blocks) (known : get_chip_gpio_adress generation c ≡ some b) (w : Window)
    (held : Held dev.page_size (some w)) (group num : ℕ) (small : num < 8)
    (dir_hit : in_cache w (direction_address b group) ≡ true)
    (data_hit : in_cache w (data_address b group num) ≡ true) where
  -- The descriptor is open and the window is held.
  abbrev pub Open : MemState S → Type 0
  Open m = (m.loaded_area ≡ some w) × (m.mem_fd ≢ 0)

  -- The system behind the write of the directions.
  abbrev turned : ℕ → S → S
  turned direct s =
      if direct / 2 ^ num % 2 == 0
      then dev.store s (direction_address b group) (direct + 2 ^ num)
      else s
