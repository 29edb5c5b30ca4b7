-- ===== src/Memory/Cache.antt =====
-- The mapping that `mem_reg` keeps.
use ipctool.Base.{
  ℕ, ◌+◌, ◌-◌, ◌%◌, ◌<◌, ◌≤◌, Bool, true, false, Option, none, some, ◌≡◌, ◌≢◌, ◌⊎◌, inl, inr, refl,
  arith, ◌==◌, ltb, Bool-cases, ap, ◌∙◌, le→leb, sym, ◌&&◌,
}
use mathlib.Core.Path.{subst}
use ipctool.Memory.{
  Mapped, mapped, not_permitted, failed, DevMem, Area, Window, MemState, RegOp, op_read, op_write,
  Access, no_access, in_cache, below, whole_pages, perform, access, unmap, drop_stale, map_call,
  settle, try_page, map_area, opened, with_fd, through_area, mem_reg,
}

-- The page sizes of the machines that the program runs on.
abbrev pub IsPageSize : ℕ → Type 0
IsPageSize p = (p ≡ 4096) ⊎ (p ≡ 16384) ⊎ (p ≡ 65536)

-- What `mem_reg` keeps is an aligned window of 64 KiB less one byte, or of one page, and it is
-- kept with the offset and the size that mmap was given.
abbrev pub Held : ℕ → Option Window → Type 0
Held page none = Unit {0}
Held page (some w) =
    (w.loaded_offset % 4 ≡ 0)
    × ((w.loaded_size ≡ 0xffff) ⊎ (w.loaded_size ≡ page))
    × (w.area.mapped_offset ≡ w.loaded_offset)
    × (w.area.mapped_size ≡ w.loaded_size)

-- The states that a state comes to by system calls of `mem_reg`.
pub data Reached {S : Type 0} (dev : DevMem S) (s : S) : S → Type 0 where
  here : Reached dev s s
  by_open : (t : S) → Reached dev s t → Reached dev s (dev.open_mem t).1
  by_mmap :
      (t : S) (fd size offset : ℕ) → Reached dev s t → Reached dev s (dev.mmap t fd size offset).1
  by_munmap : (t : S) (offset size : ℕ) → Reached dev s t → Reached dev s (dev.munmap t offset size)

is_not_zero : (n : ℕ) → n ≢ 0 → (n == 0) ≡ false
is_not_zero n h = ground (arith, h)

module _ {S : Type 0} (dev : DevMem S) (paged : IsPageSize dev.page_size) (addr : ℕ)
    (aligned : addr % 4 ≡ 0) (op : RegOp) where
  in_pages :
      (offset size : ℕ)
      → offset % 4 ≡ 0
      → offset < size
      → (size ≡ 0xffff) ⊎ (size ≡ dev.page_size)
      → offset + 4 ≤ whole_pages dev size
  unfolding whole_pages
  in_pages offset size four below' h = elim paged [
    | inl p ↦ rw p (ground arith)
    | inr (inl p) ↦ rw p (ground arith)
    | inr (inr p) ↦ rw p (ground arith)
  ]

  in_cache-covers :
      (w : Window)
      → in_cache w addr ≡ true
      → (w.loaded_offset ≤ addr) × (addr - w.loaded_offset < w.loaded_size)
  unfolding in_cache
  in_cache-covers w h = (ground arith, ground arith)

  access-perform :
      (w : Window) (m : MemState S)
      → Held dev.page_size (some w)
      → w.loaded_offset ≤ addr
      → addr - w.loaded_offset < w.loaded_size
      → access dev op w addr m ≡ perform dev op addr m
  unfolding access
  access-perform w m held low high =
      let fits =
        le→leb _ _
          (in_pages (addr - w.loaded_offset) w.loaded_size (omega (arith, held.0)) high held.1) in
      let back : w.loaded_offset + (addr - w.loaded_offset) ≡ addr = omega arith in
      rw (held.2, held.3, fits, back) refl

  -- A window that covers the address, if there is one.
  abbrev Ready : Option Window → Type 0
  Ready none = Unit {0}
  Ready (some w) =
      Held dev.page_size (some w)
      × (w.loaded_offset ≤ addr)
      × (addr - w.loaded_offset < w.loaded_size)

  -- The access is refused, or it is that of physical memory at the address, in a state that the start
  -- comes to by system calls; what is held afterwards is
  -- a proper window again.
  abbrev pub Physical : S → Access × MemState S → Type 0
  Physical start r =
      Held dev.page_size r.1.loaded_area
      × ((r.0 ≡ no_access)
          ⊎ ((s : MemState S) × Reached dev start s.system × (r ≡ perform dev op addr s)))

  perform-loaded :
      (o : RegOp) (m : MemState S) → (perform dev o addr m).1.loaded_area ≡ m.loaded_area
  unfolding perform
  perform-loaded op_read m = refl
  perform-loaded (op_write d) m = refl

  access-Physical :
      (start : S) (w : Window) (m : MemState S)
      → Ready (some w)
      → m.loaded_area ≡ some w
      → Reached dev start m.system
      → Physical start (access dev op w addr m)
  access-Physical start w m ready e calls =
      let p = access-perform w m ready.0 ready.1 ready.2 in
      let kept : (access dev op w addr m).1.loaded_area ≡ some w =
        ap (λ r. r.1.loaded_area) p ∙ perform-loaded op m ∙ e in
      (subst (Held dev.page_size) (sym kept) ready.0, inr (m, calls, p))

  settle-Physical :
      (start : S) (area : Area) (offset size : ℕ) (answer : Mapped) (s : S) (m : MemState S)
      → Ready (some (record { area = area; loaded_offset = offset; loaded_size = size }))
      → Held dev.page_size m.loaded_area
      → Reached dev start s
      → Physical start (settle dev op addr offset size (area, answer, s) m)
  unfolding settle
  settle-Physical start area offset size mapped s m ready held calls =
      let w : Window = record { area = area; loaded_offset = offset; loaded_size = size } in
      access-Physical start w (record m { system = s; loaded_area = some w }) ready refl calls
  settle-Physical start area offset size not_permitted s m ready held calls = (held, inl refl)
  settle-Physical start area offset size failed s m ready held calls = (held, inl refl)

  -- The window that a call of mmap gives.
  abbrev mapped_window : ℕ → ℕ → Window
  mapped_window offset size = record {
    area = record { mapped_offset = offset; mapped_size = size };
    loaded_offset = offset;
    loaded_size = size;
  }

  wide-Ready : Ready (some (mapped_window (below addr 0x10000) 0xffff))
  unfolding below
  wide-Ready = ((omega (arith, aligned), inl refl, refl, refl), omega arith, omega (arith, aligned))

  page-Ready : Ready (some (mapped_window (below addr dev.page_size) dev.page_size))
  unfolding below
  page-Ready = elim paged [
    | inl p ↦ rw p ((omega (arith, aligned), inr refl, refl, refl), omega arith, omega arith)
    | inr (inl p) ↦ rw p ((omega (arith, aligned), inr refl, refl, refl), omega arith, omega arith)
    | inr (inr p) ↦ rw p ((omega (arith, aligned), inr refl, refl, refl), omega arith, omega arith)
  ]

  abbrev wide_area : Area
  wide_area = record { mapped_offset = below addr 0x10000; mapped_size = 0xffff }

  try_page-Physical :
      (start : S) (answer : Mapped) (s : S) (m : MemState S)
      → Held dev.page_size m.loaded_area
      → Reached dev start s
      → Physical start (try_page dev op addr (wide_area, answer, s) m)
  unfolding try_page map_call
  try_page-Physical start not_permitted s m held calls =
      settle-Physical start _ _ _ _ _ m page-Ready held (by_mmap s m.mem_fd _ _ calls)
  try_page-Physical start mapped s m held calls =
      settle-Physical start _ _ _ mapped s m wide-Ready held calls
  try_page-Physical start failed s m held calls =
      settle-Physical start _ _ _ failed s m wide-Ready held calls

  map_area-Physical :
      (start : S) (area : Option Window) (m : MemState S)
      → m.loaded_area ≡ area
      → Ready area
      → Reached dev start m.system
      → Physical start (map_area dev op addr area m)
  unfolding map_area map_call
  map_area-Physical start none m e ready calls =
      let r = dev.mmap m.system m.mem_fd 0xffff (below addr 0x10000) in
      try_page-Physical start r.0 r.1 m (subst (Held dev.page_size) (sym e) tt)
        (by_mmap m.system m.mem_fd 0xffff (below addr 0x10000) calls)
  map_area-Physical start (some w) m e ready calls = access-Physical start w m ready e calls

  with_fd-Physical :
      (start : S) (fresh : Bool) (m : MemState S)
      → Ready m.loaded_area
      → Held dev.page_size m.loaded_area
      → Reached dev start m.system
      → Physical start (with_fd dev op addr fresh m)
  unfolding with_fd
  with_fd-Physical start fresh m ready held calls =
      elim (Bool-cases (fresh && ltb 0x7fff_ffff m.mem_fd)) [
        | inl shut ↦ rw shut (held, inl refl)
        | inr fine ↦ rw fine (map_area-Physical start m.loaded_area m refl ready calls)
      ]

  opened-loaded : (m : MemState S) → (opened dev m).loaded_area ≡ m.loaded_area
  unfolding opened
  opened-loaded m = elim (Bool-cases (m.mem_fd == 0)) [ inl y ↦ rw y refl | inr n ↦ rw n refl ]

  opened-Reached :
      (start : S) (m : MemState S)
      → Reached dev start m.system
      → Reached dev start (opened dev m).system
  unfolding opened
  opened-Reached start m calls = elim (Bool-cases (m.mem_fd == 0)) [
    | inl y ↦ rw y (by_open m.system calls)
    | inr n ↦ rw n calls
  ]

  unmap-Reached : (m : MemState S) → Reached dev m.system (unmap dev m).system
  unfolding unmap
  unmap-Reached m = go m.loaded_area
    where
      go :
          (area : Option Window)
          → Reached dev m.system
              (elim area as (λ _. MemState S) [
                | none ↦ m
                | some w ↦ record m {
                  system = dev.munmap m.system w.area.mapped_offset w.loaded_size;
                  loaded_area = none;
                }
              ]).system
      go none = here
      go (some w) = by_munmap m.system w.area.mapped_offset w.loaded_size here

  drop_stale-Reached :
      (area : Option Window) (m : MemState S)
      → Reached dev m.system (drop_stale dev addr area m).system
  unfolding drop_stale
  drop_stale-Reached none m = here
  drop_stale-Reached (some w) m = elim (Bool-cases (in_cache w addr)) [
    | inl hit ↦ rw hit here
    | inr stale ↦ rw stale (unmap-Reached m)
  ]

  drop_stale-Ready :
      (area : Option Window) (m : MemState S)
      → m.loaded_area ≡ area
      → Held dev.page_size area
      → Ready (drop_stale dev addr area m).loaded_area
        × Held dev.page_size (drop_stale dev addr area m).loaded_area
  unfolding drop_stale unmap
  drop_stale-Ready none m e held = (subst Ready (sym e) tt, subst (Held dev.page_size) (sym e) tt)
  drop_stale-Ready (some w) m e held = elim (Bool-cases (in_cache w addr)) [
    | inl hit ↦ rw hit (
      subst Ready (sym e) (held, (in_cache-covers w hit).0, (in_cache-covers w hit).1),
      subst (Held dev.page_size) (sym e) held,
    )
    | inr stale ↦ rw (stale, e) (tt, tt)
  ]

  through_area-Physical :
      (start : S) (m : MemState S)
      → Ready m.loaded_area
      → Held dev.page_size m.loaded_area
      → Reached dev start m.system
      → Physical start (through_area dev op addr m)
  unfolding through_area
  through_area-Physical start m ready held calls =
      with_fd-Physical start _ (opened dev m) (subst Ready (sym (opened-loaded m)) ready)
        (subst (Held dev.page_size) (sym (opened-loaded m)) held) (opened-Reached start m calls)

  no_pinless : (addr == 0xdeadbeef) ≡ false
  no_pinless = ground (arith, aligned)

  -- On a machine with pages of 4, 16 or 64 KiB, at an aligned address that is not 0, and with a
  -- proper window or none in the cache, `mem_reg` never reads or writes outside its mapping: it
  -- answers false, or does exactly the access of physical memory at that address, after system
  -- calls alone. The window that it keeps is a proper one again.
  pub mem_reg-Physical :
      (m : MemState S)
      → addr ≢ 0
      → Held dev.page_size m.loaded_area
      → Physical m.system (mem_reg dev op addr m)
  unfolding mem_reg
  mem_reg-Physical m nz held =
      let kept = drop_stale-Ready m.loaded_area m refl held in
      rw (no_pinless, is_not_zero addr nz)
        (through_area-Physical m.system (drop_stale dev addr m.loaded_area m) kept.0 kept.1
          (drop_stale-Reached m.loaded_area m))

  drop_stale-hit :
      (m : MemState S) (w : Window) → in_cache w addr ≡ true → drop_stale dev addr (some w) m ≡ m
  unfolding drop_stale
  drop_stale-hit m w hit = rw hit refl

  opened-again : (m : MemState S) → (m.mem_fd == 0) ≡ false → opened dev m ≡ m
  unfolding opened
  opened-again m fd = rw fd refl

  through_area-held :
      (m : MemState S)
      → m.mem_fd ≢ 0
      → through_area dev op addr m ≡ map_area dev op addr m.loaded_area m
  unfolding through_area with_fd
  through_area-held m fd =
      let shut = is_not_zero m.mem_fd fd in
      ap (λ k. with_fd dev op addr (m.mem_fd == 0) k) (opened-again m shut)
      ∙ ap (λ b. with_fd dev op addr b m) shut

  -- On a machine with pages of 4, 16 or 64 KiB, with the descriptor open and a proper window held
  -- that covers the aligned address, which is not 0, `mem_reg` makes no system call: it is
  -- exactly the access of physical memory at the address.
  pub mem_reg-cached :
      (m : MemState S) (w : Window)
      → m.loaded_area ≡ some w
      → Held dev.page_size (some w)
      → in_cache w addr ≡ true
      → m.mem_fd ≢ 0
      → addr ≢ 0
      → mem_reg dev op addr m ≡ perform dev op addr m
  unfolding mem_reg map_area
  mem_reg-cached m w h held hit fd nz =
      let covers = in_cache-covers w hit in
      let kept : drop_stale dev addr m.loaded_area m ≡ m =
        ap (λ a. drop_stale dev addr a m) h ∙ drop_stale-hit m w hit in
      rw (no_pinless, is_not_zero addr nz, kept)
        (through_area-held m fd
          ∙ ap (λ a. map_area dev op addr a m) h
          ∙ access-perform w m held covers.0 covers.1)
