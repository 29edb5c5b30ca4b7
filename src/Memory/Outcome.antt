-- ===== src/Memory/Outcome.antt =====
-- What `mem_reg` answers at the addresses of the register tables.
use ipctool.Base.{ℕ, ◌%◌, none, some, ◌≡◌, ◌≢◌, inl, inr, refl, sym}
use mathlib.Core.Path.{subst}
use ipctool.Memory.{
  DevMem, MemState, RegOp, op_read, op_write, Access, done, no_access, pinless, perform, mem_reg,
}
use ipctool.Memory.Cache.{IsPageSize, Held, mem_reg-Physical}

-- The answers other than a `fault`: a read gives a value, a write none.
pub data Outcome : RegOp → Access → Type 0 where
  was_read : (v : ℕ) → Outcome op_read (done (some v))
  was_written : (d : ℕ) → Outcome (op_write d) (done none)
  refused : (op : RegOp) → Outcome op no_access

-- An aligned address that is not 0, or the mark of a pin without a register.
pub data Usable (addr : ℕ) : Type 0 where
  no_pin : addr ≡ 0xdeadbeef → Usable addr
  word : addr % 4 ≡ 0 → addr ≢ 0 → Usable addr

pinless-Outcome : (op : RegOp) → Outcome op (pinless op)
unfolding pinless
pinless-Outcome op_read = was_read 0
pinless-Outcome (op_write d) = was_written d

module _ {S : Type 0} (dev : DevMem S) (paged : IsPageSize dev.page_size) where
  perform-Outcome : (op : RegOp) (addr : ℕ) (s : MemState S) → Outcome op (perform dev op addr s).0
  unfolding perform
  perform-Outcome op_read addr s = was_read (dev.load s.system addr).0
  perform-Outcome (op_write d) addr s = was_written d

  -- A proper window or none is held, and the access was answered.
  abbrev pub Served : RegOp → Access × MemState S → Type 0
  Served op r = Held dev.page_size r.1.loaded_area × Outcome op r.0

  mem_reg-pinless : (op : RegOp) (m : MemState S) → mem_reg dev op 0xdeadbeef m ≡ (pinless op, m)
  unfolding mem_reg
  mem_reg-pinless op m = refl

  pub mem_reg-Served :
      (op : RegOp) (addr : ℕ) (m : MemState S)
      → Usable addr
      → Held dev.page_size m.loaded_area
      → Served op (mem_reg dev op addr m)
  mem_reg-Served op addr m (no_pin e) held =
      subst (λ a. Served op (mem_reg dev op a m)) (sym e)
        (subst (Served op) (sym (mem_reg-pinless op m)) (held, pinless-Outcome op))
  mem_reg-Served op addr m (word four nz) held =
      let r = mem_reg-Physical dev paged addr four op m nz held in
      (
        r.0,
        elim r.1 [
          | inl shut ↦ subst (Outcome op) (sym shut) (refused op)
          | inr (s, calls, e) ↦ subst (λ k. Outcome op k.0) (sym e) (perform-Outcome op addr s)
        ],
      )
