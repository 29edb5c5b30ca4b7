-- ===== src/Tests/MemoryRuns.antt =====
-- Register accesses (src/tools.c) on a memory that holds its own addresses and counts system calls.
use ipctool.Base.{ℕ, true, ◌+◌, ◌≡◌, inl, refl, some, arith}
use ipctool.Memory.{mapped, DevMem, Window, MemState, op_read, in_cache, perform, mem_reg}
use ipctool.Memory.Cache.{Physical, mem_reg-Physical, mem_reg-cached}

abbrev pub counted : DevMem ℕ
counted = record {
  open_mem = λ s. (3, s + 1);
  close = λ s fd. s + 1;
  mmap = λ s fd size offset. (mapped, s + 1);
  munmap = λ s offset size. s + 1;
  page_size = 4096;
  load = λ s addr. (addr, s);
  store = λ s addr data'. s;
}

abbrev window : Window
window = record {
  area = record { mapped_offset = 0x12010000; mapped_size = 0xffff };
  loaded_offset = 0x12010000;
  loaded_size = 0xffff;
}

abbrev pub state : MemState ℕ
state = record { system = 0; mem_fd = 3; loaded_area = some window }

mem_reg-Physical_example :
    Physical counted (inl refl) 0x12020004 refl op_read 0 (mem_reg counted op_read 0x12020004 state)
mem_reg-Physical_example =
    mem_reg-Physical counted (inl refl) 0x12020004 refl op_read state (omega arith)
      (refl, inl refl, refl, refl)

hit : in_cache window 0x12010004 ≡ true
unfolding in_cache
hit = refl

mem_reg-cached_example :
    mem_reg counted op_read 0x12010004 state ≡ perform counted op_read 0x12010004 state
mem_reg-cached_example =
    mem_reg-cached counted (inl refl) 0x12010004 refl op_read state window refl
      (refl, inl refl, refl, refl) hit (omega arith) (omega arith)
