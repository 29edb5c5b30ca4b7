-- ===== src/Uboot/Env/Walk.antt =====
-- The whole walk of `uboot_setenv_cb`, and the call around it.
use ipctool.Base.{
  ℕ, zero, suc, ◌+◌, ◌≤◌, ◌<◌, Bool, true, false, List, [], ◌∷◌, ◌++◌, ◌≡◌, ◌≢◌, refl, ap, arith,
  length,
}
use ipctool.Base.Bytes.{Bytes}
use ipctool.Uboot.Env.{set_entry, set_walk, after_round, appended, FlashOp}
use ipctool.Uboot.Env.Text.{IsText, AreEntries, encode, lines, lines-append, cut-text}
use ipctool.Uboot.Env.Spec.{Change, ends, becomes, change, update}
use ipctool.Uboot.Env.Set.{
  buffer, result, step_of, text, need, set_entry-change, change-size, snprintf-buffer,
}

module _ (key newvalue : Bytes) (fop : FlashOp) where
  set_walk-suc :
      (fuel : ℕ) (front e rest : Bytes) (found : Bool) (arr : Bytes) (pos : ℕ)
      → IsText e
      → e ≢ []
      → set_walk (suc fuel) key newvalue fop front (e ++ 0 ∷ rest) found arr pos
        ≡ after_round
            (λ found' arr' pos'.
              set_walk fuel key newvalue fop (front ++ (e ++ 0 ∷ [])) rest found' arr' pos')
            (set_entry key newvalue fop front e rest found arr pos)
  unfolding set_walk after_round
  set_walk-suc fuel front [] rest found arr pos t ne = absurd (ne refl)
  set_walk-suc fuel front (zero ∷ e) rest found arr pos t ne = absurd t
  set_walk-suc fuel front (suc c ∷ e) rest found arr pos t ne =
      rw (cut-text (suc c ∷ e) rest t, set_walk)

module _ (key newvalue : Bytes) (fop : FlashOp) (pad : Bytes) (total : ℕ) where
  -- The walk over the rest of the entries gives the specification's update.
  abbrev WalksTo : ℕ → List Bytes → List Bytes → Bool → List Bytes → Type 0
  WalksTo fuel before es found out =
      set_walk fuel key newvalue fop (lines before) (encode es pad) found (buffer total out)
        (length (lines out))
      ≡ result pad total (update key newvalue fop before es found out)

  walk-nil :
      (fuel : ℕ) (before out : List Bytes) (found : Bool)
      → length (lines out) + length (text key newvalue fop pad total) < total
      → WalksTo (suc fuel) before [] found out
  unfolding set_walk update
  walk-nil fuel before out true room = refl
  walk-nil fuel before out false room =
      ap appended (snprintf-buffer total out (text key newvalue fop pad total) room)

  -- A round and what follows it, by what the specification makes of the entry.
  walk-cons :
      (fuel : ℕ) (before es out : List Bytes) (e : Bytes) (found : Bool) (c : Change)
      → change key newvalue fop before e es found ≡ c
      → ((found' : Bool) (new : List Bytes)
          → c ≡ becomes found' new
          → WalksTo fuel (before ++ e ∷ []) es found' (out ++ new))
      → after_round
          (λ found' arr' pos'.
            set_walk fuel key newvalue fop
              (lines (before ++ e ∷ []))
              (encode es pad)
              found'
              arr'
              pos')
          (step_of pad total out c)
        ≡ result pad total (update key newvalue fop before (e ∷ es) found out)
  unfolding after_round update
  walk-cons fuel before es out e found (ends u) h later = rw (h, update)
  walk-cons fuel before es out e found (becomes found' new) h later =
      rw (h, update) (later found' new refl)

  pub set_walk-update :
      (fuel : ℕ) (before es out : List Bytes) (found : Bool)
      → AreEntries es
      → length es < fuel
      → length (lines out) + need key newvalue fop pad total es ≤ total
      → WalksTo fuel before es found out
  set_walk-update zero before es out found are enough room = absurd (omega arith)
  set_walk-update (suc fuel) before [] out found are enough room =
      walk-nil fuel before out found (omega arith)
  set_walk-update (suc fuel) before (e ∷ es) out found are enough room =
      let front : lines (before ++ e ∷ []) ≡ lines before ++ (e ++ 0 ∷ []) =
        lines-append before (e ∷ []) in
      rw
        (
          set_walk-suc key newvalue fop fuel (lines before) e (encode es pad) found
              (buffer total out) (length (lines out)) are.0.0 are.0.1,
          set_entry-change key newvalue fop pad total before es out e found (omega arith)
              (omega arith),
          ← front,
        )
        (walk-cons fuel before es out e found _ refl (λ found' new h.
          set_walk-update fuel (before ++ e ∷ []) es (out ++ new) found' are.1 (omega arith) (
            omega
              (arith, change-size key newvalue fop pad total before es out e found found' new h))))
