-- ===== src/Memory.antt =====
-- src/tools.c: `mem_reg`, the access to physical registers through a cached mapping of /dev/mem.
-- The mapping is page-granular: an access behind its last page is a `fault`. `addr & 0xffff0000` and
-- `addr & ~(page - 1)` are written as the multiples below `addr`; a page size is a power of two.
pub mod Cache
pub mod Outcome
use ipctool.Base.{
  ℕ, ◌+◌, ◌-◌, ◌*◌, ◌/◌, ◌%◌, Bool, true, false, ◌&&◌, Option, none, some, ◌==◌, ltb, leb,
  if◌then◌else◌, minus_one,
}

-- What mmap answers: MAP_FAILED with EPERM, with another error, or an area.
pub data Mapped : Type 0 where
  mapped not_permitted failed : Mapped

-- The system calls, over the state of the system; `load` and `store` are the 32-bit accesses of
-- physical memory.
pub record DevMem (S : Type 0) : Type 0 where
  pub open_mem : S → ℕ × S
  pub close : S → ℕ → S
  pub mmap : S → ℕ → ℕ → ℕ → Mapped × S
  pub munmap : S → ℕ → ℕ → S
  pub page_size : ℕ
  pub load : S → ℕ → ℕ × S
  pub store : S → ℕ → ℕ → S

-- What mmap was asked for when it answered an area.
pub record Area : Type 0 where
  pub mapped_offset : ℕ
  pub mapped_size : ℕ

-- loaded_area, and loaded_offset and loaded_size, which are set apart from it
pub record Window : Type 0 where
  pub area : Area
  pub loaded_offset : ℕ
  pub loaded_size : ℕ

-- The statics of `mem_reg`; no window is a `loaded_area` of NULL.
pub record MemState (S : Type 0) : Type 0 where
  pub system : S
  pub mem_fd : ℕ
  pub loaded_area : Option Window

-- enum REG_OPS, with *data where it is read
pub data RegOp : Type 0 where
  op_read : RegOp
  op_write : ℕ → RegOp

-- `done` is true, with the value of *data where it is written; `no_access` is false.
pub data Access : Type 0 where
  done : Option ℕ → Access
  no_access fault : Access

-- addr >= loaded_offset && addr - loaded_offset < loaded_size
unfoldable pub in_cache : Window → ℕ → Bool
in_cache w addr = leb w.loaded_offset addr && ltb (addr - w.loaded_offset) w.loaded_size

pub below : ℕ → ℕ → ℕ
below addr unit = addr - addr % unit

pub pinless : RegOp → Access
pinless op_read = done (some 0)
pinless (op_write data') = done none

module _ {S : Type 0} (dev : DevMem S) where
  -- The bytes that the mapping of a size really has.
  pub whole_pages : ℕ → ℕ
  whole_pages size = (size + dev.page_size - 1) / dev.page_size * dev.page_size

  unfoldable pub perform : RegOp → ℕ → MemState S → Access × MemState S
  perform op_read addr m =
      let r = dev.load m.system addr in (done (some r.0), record m { system = r.1 })
  perform (op_write data') addr m = (done none, record m { system = dev.store m.system addr data' })

  -- *(volatile uint32_t *)(mapped_area + (addr - loaded_offset))
  pub access : RegOp → Window → ℕ → MemState S → Access × MemState S
  unfolding perform whole_pages
  access op w addr m =
      let offset = addr - w.loaded_offset in
      if leb (offset + 4) (whole_pages w.area.mapped_size)
      then perform op (w.area.mapped_offset + offset) m
      else (fault, m)

  pub unmap : MemState S → MemState S
  unmap m = elim m.loaded_area [
    | none ↦ m
    | some w ↦ record m {
      system = dev.munmap m.system w.area.mapped_offset w.loaded_size;
      loaded_area = none;
    }
  ]

  -- if (loaded_area && !in_cache) munmap(..)
  pub drop_stale : ℕ → Option Window → MemState S → MemState S
  unfolding in_cache unmap
  drop_stale addr none m = m
  drop_stale addr (some w) m = if in_cache w addr then m else unmap m

  -- if (!addr): the area and the descriptor are given up
  pub cleanup : MemState S → MemState S
  unfolding unmap
  cleanup m =
      let freed = unmap m in
      record freed { system = dev.close freed.system freed.mem_fd; mem_fd = 0 }

  -- mmap(NULL, size, .., mem_fd, offset), with the area that it stands for
  pub map_call : S → ℕ → ℕ → ℕ → Area × Mapped × S
  map_call s fd size offset =
      let r = dev.mmap s fd size offset in
      (record { mapped_offset = offset; mapped_size = size }, r.0, r.1)

  -- From `loaded_area = mapped_area` on, with the `offset` and the `size` of the function.
  pub settle : RegOp → ℕ → ℕ → ℕ → Area × Mapped × S → MemState S → Access × MemState S
  unfolding access
  settle op addr offset size (area, mapped, s) m =
      let w : Window = record { area = area; loaded_offset = offset; loaded_size = size } in
      access op w addr (record m { system = s; loaded_area = some w })
  settle op addr offset size (area, _, s) m = (no_access, record m { system = s })

  -- The window of 64 KiB, or the single page where that is not permitted.
  pub try_page : RegOp → ℕ → Area × Mapped × S → MemState S → Access × MemState S
  unfolding settle below map_call
  try_page op addr (area, not_permitted, s) m =
      let size = dev.page_size in
      let offset = below addr dev.page_size in
      settle op addr offset size (map_call s m.mem_fd size offset) m
  try_page op addr r m = settle op addr (below addr 0x10000) 0xffff r m

  pub map_area : RegOp → ℕ → Option Window → MemState S → Access × MemState S
  unfolding try_page
  map_area op addr (some w) m = access op w addr m
  map_area op addr none m =
      try_page op addr (map_call m.system m.mem_fd 0xffff (below addr 0x10000)) m

  -- if (!mem_fd) mem_fd = open("/dev/mem", ..)
  pub opened : MemState S → MemState S
  opened m =
      let r = dev.open_mem m.system in
      if m.mem_fd == 0 then record m { system = r.1; mem_fd = r.0 } else m

  -- With a descriptor: `fresh` says that it was opened in this call.
  pub with_fd : RegOp → ℕ → Bool → MemState S → Access × MemState S
  unfolding map_area
  with_fd op addr fresh m =
      if fresh && ltb 0x7fff_ffff m.mem_fd then (no_access, m) else map_area op addr m.loaded_area m

  -- From the test of the descriptor on.
  pub through_area : RegOp → ℕ → MemState S → Access × MemState S
  unfolding opened with_fd
  through_area op addr m = with_fd op addr (m.mem_fd == 0) (opened m)

  pub mem_reg : RegOp → ℕ → MemState S → Access × MemState S
  unfolding pinless cleanup drop_stale through_area
  mem_reg op addr m =
      if addr == 0xdeadbeef
      then (pinless op, m)
      else if addr == 0
      then (done none, cleanup m)
      else through_area op addr (drop_stale addr m.loaded_area m)
