-- ===== src/Pinmux/Gpio/Safe.antt =====
-- The accesses of `gpio get` and `gpio set` stay inside the mapping.
use ipctool.Base.{
  ℕ, ◌+◌, ◌*◌, ◌^◌, ◌≤◌, ◌%◌, false, ◌||◌, Option, none, some, ◌≡◌, ◌≢◌, ◌<◌, inl, inr, refl, arith,
  Bool-cases, ltb, u32, ◌==◌, ◌>>>◌, minus_one,
}
use ipctool.Base.Bytes.{Bytes}
use ipctool.Memory.{DevMem, MemState, op_read, op_write, Access, mem_reg}
use ipctool.Memory.Cache.{IsPageSize, Held}
use ipctool.Memory.Outcome.{Outcome, was_read, was_written, refused, Usable, word, mem_reg-Served}
use ipctool.Pinmux.Mux.{Exit, success, failure, exited, crash, Scan, gpio_mux_by}
use ipctool.Pinmux.Mux.Safe.{Ended, write-Ended, gpio_mux_by-Ended}
use ipctool.Pinmux.Gpio.{
  Blocks, get_chip_gpio_adress, data_address, direction_address, make_output, write_level,
  after_direction, with_direction, set_level, shown, get_level, silent, manipulate_at, after_mux,
  manipulate_in, gpio_manipulate, place, negative, exceeds,
}
use ipctool.Pinmux.Gpio.Address.{data_address-word, direction_address-word}

module _ {S : Type 0} (dev : DevMem S) (paged : IsPageSize dev.page_size) where
  abbrev pub Quiet : (Exit × Option ℕ) × MemState S → Type 0
  Quiet r = Held dev.page_size r.1.loaded_area × (r.0.0 ≢ crash)

  -- At a pin whose number is in the group.
  module _ (b : Blocks) (group num : ℕ) (low : num < 8)
      (data_word : Usable (data_address b group num))
      (direction_word : Usable (direction_address b group)) where
    write_level-Ended :
        (val : ℕ) (m : MemState S)
        → Held dev.page_size m.loaded_area
        → Ended dev paged (write_level dev b group num val m)
    unfolding write_level
    write_level-Ended val m held =
        write-Ended dev paged (val * 2 ^ num) (data_address b group num) m data_word held

    after_direction-Ended :
        (val d : ℕ) (a : Access) (m : MemState S)
        → Held dev.page_size m.loaded_area
        → Outcome (op_write d) a
        → Ended dev paged (after_direction dev b group num val (a, m))
    unfolding after_direction
    after_direction-Ended val _ _ m held (was_written _) = write_level-Ended val m held
    after_direction-Ended val _ _ m held (refused _) = (held, λ e. ground (arith, e))

    with_direction-Ended :
        (val : ℕ) (a : Access) (m : MemState S)
        → Held dev.page_size m.loaded_area
        → Outcome op_read a
        → Ended dev paged (with_direction dev b group num val (a, m))
    unfolding with_direction negative
    with_direction-Ended val _ m held (refused _) = (held, λ e. ground (arith, e))
    with_direction-Ended val _ m held (was_read v) =
        let d = make_output v num in
        let near : ltb 0x7fff_ffff num ≡ false = ground (arith, low) in
        let r =
          mem_reg-Served dev paged (op_write d) (direction_address b group) m direction_word held in
        let n = mem_reg dev (op_write d) (direction_address b group) m in
        elim (Bool-cases ((v >>> num) % 2 == 0)) [
          | inl y ↦ rw (near, y) (after_direction-Ended val d n.0 n.1 r.0 r.1)
          | inr k ↦ rw (near, k) (write_level-Ended val m held)
        ]

    set_level-Ended :
        (scan : Scan) (arg : Bytes) (m : MemState S)
        → Held dev.page_size m.loaded_area
        → Ended dev paged (set_level dev scan b group num arg m)
    unfolding set_level
    set_level-Ended scan arg m held =
        let val = u32 (scan.strtoul_10 arg) in
        let r =
          mem_reg-Served dev paged op_read (direction_address b group) m direction_word held in
        let n = mem_reg dev op_read (direction_address b group) m in
        elim (Bool-cases (ltb 1 val)) [
          | inl y ↦ rw y (held, λ e. ground (arith, e))
          | inr k ↦ rw k (with_direction-Ended val n.0 n.1 r.0 r.1)
        ]

    shown-Quiet :
        (a : Access) (m : MemState S)
        → Held dev.page_size m.loaded_area
        → Outcome op_read a
        → Quiet (shown dev (a, m))
    unfolding shown
    shown-Quiet _ m held (was_read v) = (held, λ e. ground (arith, e))
    shown-Quiet _ m held (refused _) = (held, λ e. ground (arith, e))

    get_level-Quiet :
        (m : MemState S) → Held dev.page_size m.loaded_area → Quiet (get_level dev b group num m)
    unfolding get_level
    get_level-Quiet m held =
        let r = mem_reg-Served dev paged op_read (data_address b group num) m data_word held in
        let n = mem_reg dev op_read (data_address b group num) m in shown-Quiet n.0 n.1 r.0 r.1

    silent-Quiet : (r : Exit × MemState S) → Ended dev paged r → Quiet (silent dev r)
    unfolding silent
    silent-Quiet (e, m) h = h

  module _ (scan : Scan) (generation : ℕ) (c : Bytes) (b : Blocks)
      (known : get_chip_gpio_adress generation c ≡ some b) where
    words :
        (group num : ℕ)
        → num < 8
        → Usable (data_address b group num) × Usable (direction_address b group)
    words group num low =
        let here = data_address-word generation c b known group num low in
        let above = direction_address-word generation c b known group in
        (word here.0 here.1, word above.0 above.1)

    manipulate_at-Quiet :
        (group num : ℕ) (level : Option Bytes) (m : MemState S)
        → num ≤ 0x7fff_ffff
        → Held dev.page_size m.loaded_area
        → Quiet (manipulate_at dev scan b (group, num) level m)
    unfolding manipulate_at exceeds negative
    manipulate_at-Quiet group num none m positive held =
        elim (Bool-cases (exceeds group b.gpio_groups || exceeds num 7)) [
          | inl y ↦ rw y (held, λ e. ground (arith, e))
          | inr n ↦
              let low : num < 8 = ground (arith, n, positive) in
              let near : ltb 0x7fff_ffff (u32 (2 + num)) ≡ false = ground (arith, low) in
              let (here, above) = words group num low in
              rw (n, near) (get_level-Quiet b group num low here above m held)
        ]
    manipulate_at-Quiet group num (some arg) m positive held =
        elim (Bool-cases (exceeds group b.gpio_groups || exceeds num 7)) [
          | inl y ↦ rw y (held, λ e. ground (arith, e))
          | inr n ↦
              let low : num < 8 = ground (arith, n, positive) in
              let near : ltb 0x7fff_ffff (u32 (2 + num)) ≡ false = ground (arith, low) in
              let (here, above) = words group num low in
              rw (n, near)
                (silent-Quiet b group num low here above (set_level dev scan b group num arg m)
                  (set_level-Ended b group num low here above scan arg m held))
        ]

    after_mux-Quiet :
        (p : ℕ × ℕ) (level : Option Bytes) (e : Exit) (m : MemState S)
        → p.1 ≤ 0x7fff_ffff
        → Ended dev paged (e, m)
        → Quiet (after_mux dev scan b p level (e, m))
    unfolding after_mux
    after_mux-Quiet p level exited m positive ended = (ended.0, λ e. ground (arith, e))
    after_mux-Quiet p level crash m positive ended = ended
    after_mux-Quiet (g, n) level success m positive ended =
        manipulate_at-Quiet g n level m positive ended.0
    after_mux-Quiet (g, n) level failure m positive ended =
        manipulate_at-Quiet g n level m positive ended.0

  manipulate_in-Quiet :
      (scan : Scan) (generation : ℕ) (c gpio_num : Bytes) (level : Option Bytes)
      (chip : Option Blocks) (m : MemState S)
      → get_chip_gpio_adress generation c ≡ chip
      → (place scan gpio_num).1 ≤ 0x7fff_ffff
      → Held dev.page_size m.loaded_area
      → Quiet (manipulate_in dev scan generation c gpio_num level chip m)
  unfolding manipulate_in
  manipulate_in-Quiet scan generation c gpio_num level none m known positive held =
      (held, λ e. ground (arith, e))
  manipulate_in-Quiet scan generation c gpio_num level (some b) m known positive held =
      let r = gpio_mux_by dev scan generation c gpio_num minus_one none m in
      after_mux-Quiet scan generation c b known (place scan gpio_num) level r.0 r.1 positive
        (gpio_mux_by-Ended dev paged scan generation c gpio_num minus_one none m held)

  -- On a machine with pages of 4, 16 or 64 KiB, with a proper window or none in the cache, and with
  -- a number within the group that is not negative, whatever the chip, the group, the new level and the
  -- answers of the system are: `gpio get` and `gpio set` make no access outside the mapping, use no value that
  -- was not read, shift by no negative number, and leave a proper window or none.
  pub gpio_manipulate-Quiet :
      (scan : Scan) (generation : ℕ) (c gpio_num : Bytes) (level : Option Bytes) (m : MemState S)
      → (place scan gpio_num).1 ≤ 0x7fff_ffff
      → Held dev.page_size m.loaded_area
      → Quiet (gpio_manipulate dev scan generation c gpio_num level m)
  unfolding gpio_manipulate
  gpio_manipulate-Quiet scan generation c gpio_num level m positive held =
      manipulate_in-Quiet scan generation c gpio_num level (get_chip_gpio_adress generation c) m
        refl positive held
