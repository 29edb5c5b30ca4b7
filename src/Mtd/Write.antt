-- ===== src/Mtd/Write.antt =====
-- What a write of flash that reports success has done.
use ipctool.Base.{
  ℕ, ◌≡◌, refl, sym, ap, ◌∙◌, Bool, true, false, Option, none, some, ◌==◌, ==_iff, ltb, u32, length,
  Bool-cases, inl, inr, arith, if◌then◌else◌,
}
use ipctool.Base.Bytes.{Bytes, equal_iff}
use ipctool.Mtd.{
  FlashCalls, Flash, mtd_erase_block, mtd_write_block, same_bytes, mtd_verify_block, write_verified,
  write_erased, closed, mtd_write,
}

same_bytes-some :
    (got : Option Bytes) (bytes : Bytes) → same_bytes got bytes ≡ true → got ≡ some bytes
unfolding same_bytes
same_bytes-some none bytes h = absurd (ground (arith, h))
same_bytes-some (some got) bytes h = ap some (ground (arith, h, equal_iff got bytes))

module _ {S : Type 0} (sys : FlashCalls S) (offset : ℕ) (bytes : Bytes) where
  abbrev pub written : S → ℕ → ℕ × S
  written s fd = sys.write (sys.lseek s fd offset) fd bytes

  abbrev pub read_back : S → ℕ → Option Bytes × S
  read_back s fd = sys.read (sys.lseek (written s fd).1 fd offset) fd (length bytes)

  -- From the state behind the erasing: everything was written, and it was read back.
  abbrev Confirmed : ℕ → S → S → Type 0
  Confirmed fd s last =
      ((written s fd).0 ≡ u32 (length bytes))
      × ((read_back s fd).0 ≡ some bytes)
      × (last ≡ (read_back s fd).1)

  verified-cases :
      (fd : ℕ) (b : Bool) (s : S)
      → (write_verified sys fd offset bytes (b, s)).0 ≡ true
      → (b ≡ true)
        × ((mtd_verify_block sys fd offset bytes s).0 ≡ true)
        × ((write_verified sys fd offset bytes (b, s)).1
            ≡ (mtd_verify_block sys fd offset bytes s).1)
  unfolding write_verified
  verified-cases fd true s h = (refl, h, refl)
  verified-cases fd false s h = absurd (ground (arith, h))

  write_verified-Confirmed :
      (fd : ℕ) (s : S)
      → (write_verified sys fd offset bytes (mtd_write_block sys fd offset bytes s)).0 ≡ true
      → Confirmed fd s
          (write_verified sys fd offset bytes (mtd_write_block sys fd offset bytes s)).1
  unfolding mtd_write_block mtd_verify_block
  write_verified-Confirmed fd s h =
      let (all, same, last) =
        verified-cases fd ((written s fd).0 == u32 (length bytes)) (written s fd).1 h in
      (
        (==_iff (written s fd).0 (u32 (length bytes))).0 all,
        same_bytes-some (read_back s fd).0 bytes same,
        last,
      )

  -- An erasing that succeeded, and what follows it.
  abbrev Done : ℕ → Bool × Flash S → Flash S → Type 0
  Done fd erased last = (erased.0 ≡ true) × Confirmed fd erased.1.system last.system

  write_erased-Done :
      (fd : ℕ) (erased : Bool × Flash S)
      → (write_erased sys fd offset bytes erased).0 ≡ true
      → Done fd erased (write_erased sys fd offset bytes erased).1
  unfolding write_erased
  write_erased-Done fd (true, m) h = (refl, write_verified-Confirmed fd m.system h)
  write_erased-Done fd (false, m) h = absurd (ground (arith, h))

  -- The open flash: nothing but what the call for opening left.
  abbrev pub opened : ℕ → Flash S → Flash S
  opened mtd m = record m { system = (sys.open_mtd m.system mtd).1 }

  -- The steps of a write that reports success, in their order: the block was opened and erased, all
  -- bytes were written at the offset, the same bytes were read back from there, and the descriptor
  -- was closed.
  abbrev pub Verified : ℕ → ℕ → Flash S → S → Type 0
  Verified mtd erasesize m last =
      let fd = (sys.open_mtd m.system mtd).0 in
      let erased = mtd_erase_block sys fd offset erasesize (opened mtd m) in
      (ltb 0x7fff_ffff fd ≡ false)
      × (erased.0 ≡ true)
      × ((written erased.1.system fd).0 ≡ u32 (length bytes))
      × ((read_back erased.1.system fd).0 ≡ some bytes)
      × (last ≡ sys.close (read_back erased.1.system fd).1 fd)

  closed-state :
      (fd : ℕ) (r : Bool × Flash S) → (closed sys fd r).1.system ≡ sys.close r.1.system fd
  unfolding closed
  closed-state fd (b, m) = refl

  closed-answer : (fd : ℕ) (r : Bool × Flash S) → (closed sys fd r).0 ≡ r.0
  unfolding closed
  closed-answer fd (b, m) = refl

  refused :
      (o : Flash S) (r : Bool × Flash S) (t : Bool)
      → t ≡ true
      → (if t then (false, o) else r).0 ≡ true
      → ⊥
  refused o r true e h = absurd (ground (arith, h))
  refused o r false e h = absurd (ground (arith, e))

  opened_answer :
      (o : Flash S) (r : Bool × Flash S) (t : Bool) → t ≡ false → (if t then (false, o) else r) ≡ r
  opened_answer o r true e = absurd (ground (arith, e))
  opened_answer o r false e = refl

  -- Where `mtd_write` reports success: the partition was opened, the block was erased, all the bytes
  -- were written at the offset and the same bytes were read back from there, in this order and with
  -- no other call in between, and then the descriptor was closed.
  pub mtd_write-Verified :
      (mtd erasesize : ℕ) (m : Flash S)
      → (mtd_write sys mtd offset erasesize bytes m).0 ≡ true
      → Verified mtd erasesize m (mtd_write sys mtd offset erasesize bytes m).1.system
  unfolding mtd_write
  mtd_write-Verified mtd erasesize m h =
      let fd = (sys.open_mtd m.system mtd).0 in
      let erased = mtd_erase_block sys fd offset erasesize (opened mtd m) in
      let r = write_erased sys fd offset bytes erased in
      elim (Bool-cases (ltb 0x7fff_ffff fd)) [
        | inl shut ↦ absurd (refused (opened mtd m) (closed sys fd r) _ shut h)
        | inr fine ↦
            let same = opened_answer (opened mtd m) (closed sys fd r) _ fine in
            let steps =
              write_erased-Done fd erased
                (sym (closed-answer fd r) ∙ sym (ap (λ k. k.0) same) ∙ h) in
            (
              fine,
              steps.0,
              steps.1.0,
              steps.1.1,
              ap (λ k. k.1.system) same ∙ closed-state fd r ∙ ap (λ t. sys.close t fd) steps.1.2,
            )
      ]
