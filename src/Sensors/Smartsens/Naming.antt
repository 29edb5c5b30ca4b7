-- ===== src/Sensors/Smartsens/Naming.antt =====
-- What a SmartSens detection leaves in the context. A case of the switch is checked by a test
-- over the whole table.
use ipctool.Base.{
  Bool, true, false, ◌&&◌, ◌||◌, Option, some, List, [], ◌∷◌, ◌≡◌, ◌≢◌, ◌∙◌, ◌⊎◌, inl, inr, refl,
  sym, arith, String, ◌==◌, if◌then◌else◌, ℕ, bit_or, u32, ◌<<<◌, minus_one,
}
use ipctool.Sensors.Bus.{
  Hal, Dev, M, run_blocks, ◌behind◌, ◌>>=◌, accept, refuse, select, i2c_read, change_addr,
}
use mathlib.Core.Path.{subst}
use ipctool.Sensors.Verdict.{
  Sound, KeepsCtx, verdict, NonEmpty, rename-Sound, if-Sound, refuse-Sound, behind-Sound,
  run_blocks-Named, Answer, Named, NamedOrSame, After-of,
}
use ipctool.Sensors.Smartsens.{
  Case, model, named, overwritten, by_reg, by_vendor, unnamed, refused, cases, find_case, run_case,
  smartsens_switch, detect_smartsens_sensor,
}

all_cases : (ℕ → Case → Bool) → List (ℕ × Case) → Bool
all_cases p [] = true
all_cases p ((id, c) ∷ rest) = p id c && all_cases p rest

-- What holds of all rows, and of a default, holds of the case that is taken.
all_cases-find_case :
    (p : ℕ → Case → Bool) (res : ℕ) (rows : List (ℕ × Case))
    → all_cases p rows ≡ true
    → p res refused ≡ true
    → p res (find_case res rows) ≡ true
unfolding all_cases find_case
all_cases-find_case p res [] h k = k
all_cases-find_case p res ((id, c) ∷ rest) h k = ground (arith, all_cases-find_case p res rest)

has_text : String → Bool
has_text String.[] = false
has_text (String.◌∷◌ c s) = true

-- The case writes a name if it accepts, or is one of the two that write none.
writes_name : ℕ → Case → Bool
writes_name res (named s) = has_text s
writes_name res (by_reg r v s t) = has_text s && has_text t
writes_name res (by_vendor v s t) = has_text s && has_text t
writes_name res unnamed = res == 0xda23 || res == 0xdc42
writes_name res _ = true

cases_write_name : all_cases writes_name cases ≡ true
unfolding all_cases writes_name has_text cases
cases_write_name = refl

has_text-NonEmpty : (s : String) → has_text s ≡ true → NonEmpty s
unfolding has_text
has_text-NonEmpty String.[] h = cc
has_text-NonEmpty (String.◌∷◌ c s) h = tt

and-split : (a b : Bool) → (a && b) ≡ true → (a ≡ true) × (b ≡ true)
and-split a b h = ground arith

-- A block that does not accept keeps the context; one that accepts has written a name or nothing.
WeaklySound : {S : Type 0} → M S (Option Bool) → Type 0
WeaklySound {S} m =
    (d : Dev S)
    → ((m d).0 ≢ some true → (m d).1.ctx ≡ d.ctx)
      × ((m d).0 ≡ some true → ((m d).1.ctx.sensor_id ≢ []) ⊎ ((m d).1.ctx ≡ d.ctx))

module _ (S : Type 0) where
  Sound-WeaklySound : (m : M S (Option Bool)) → Sound m → WeaklySound m
  unfolding Sound WeaklySound
  Sound-WeaklySound m h d = ((h d).0, λ e. inl ((h d).1 e))

  accept-WeaklySound : WeaklySound (accept {S = S})
  unfolding WeaklySound accept
  accept-WeaklySound d = (λ _. refl, λ _. inr refl)

  bind-WeaklySound :
      (m : M S ℕ) (k : ℕ → M S (Option Bool))
      → ((d : Dev S) → (m d).1.ctx ≡ d.ctx)
      → ((a : ℕ) → WeaklySound (k a))
      → WeaklySound (m >>= k)
  unfolding WeaklySound ◌>>=◌
  bind-WeaklySound m k h hk d =
      let r = hk (m d).0 (m d).1 in
      let back = λ (e : (k (m d).0 (m d).1).1.ctx ≡ (m d).1.ctx). e ∙ h d in
      (λ e. back (r.0 e), λ e. elim (r.1 e) [ inl ne ↦ inl ne | inr same ↦ inr (back same) ])

  if-WeaklySound :
      (t : Bool) (m k : M S (Option Bool))
      → WeaklySound m
      → WeaklySound k
      → WeaklySound (if t then m else k)
  if-WeaklySound true m k h hk = h
  if-WeaklySound false m k h hk = hk

  behind-WeaklySound :
      (m k : M S (Option Bool)) → Sound m → WeaklySound k → WeaklySound (m behind k)
  unfolding Sound WeaklySound ◌behind◌
  behind-WeaklySound m k h hk d = ground (arith, (h d).0, (h d).1, (hk (m d).1).0, (hk (m d).1).1)

run_blocks-NamedOrSame :
    {S : Type 0} (m : M S (Option Bool))
    → WeaklySound m
    → (d : Dev S) → Answer NamedOrSame (run_blocks m) d
unfolding WeaklySound run_blocks
run_blocks-NamedOrSame m h d =
    After-of NamedOrSame _ _ _ (ground (arith, (h d).0, (h d).1)) (ground (arith, (h d).0, (h d).1))

unnamed-ids : (res : ℕ) → res ≢ 0xda23 → res ≢ 0xdc42 → writes_name res unnamed ≢ true
unfolding writes_name
unnamed-ids res ne ne' h = ground (arith, ne, ne', h)

module _ {S : Type 0} (hal : Hal S) (fd i2c_addr : ℕ) where
  run_case-Sound :
      (res : ℕ) (c : Case)
      → writes_name res c ≡ true
      → c ≢ unnamed
      → Sound (run_case hal fd i2c_addr c)
  unfolding run_case writes_name
  run_case-Sound res (model id) h n = search verdict depth 20
  run_case-Sound res (named s) h n = search (verdict, has_text-NonEmpty s h) depth 20
  run_case-Sound res (overwritten s id) h n = search (verdict, rename-Sound) depth 20
  run_case-Sound res (by_reg r v s t) h n =
      let both = and-split (has_text s) (has_text t) h in
      search (verdict, has_text-NonEmpty s both.0, has_text-NonEmpty t both.1) depth 20
  run_case-Sound res (by_vendor v s t) h n =
      let both = and-split (has_text s) (has_text t) h in
      search (verdict, has_text-NonEmpty s both.0, has_text-NonEmpty t both.1) depth 20
  run_case-Sound res unnamed h n = absurd (n refl)
  run_case-Sound res refused h n = search verdict

  run_case-WeaklySound :
      (res : ℕ) (c : Case) → writes_name res c ≡ true → WeaklySound (run_case hal fd i2c_addr c)
  unfolding run_case
  run_case-WeaklySound res unnamed h = accept-WeaklySound S
  run_case-WeaklySound res (model id) h =
      Sound-WeaklySound S _ (run_case-Sound res (model id) h (λ e. cc))
  run_case-WeaklySound res (named s) h =
      Sound-WeaklySound S _ (run_case-Sound res (named s) h (λ e. cc))
  run_case-WeaklySound res (overwritten s id) h =
      Sound-WeaklySound S _ (run_case-Sound res (overwritten s id) h (λ e. cc))
  run_case-WeaklySound res (by_reg r v s t) h =
      Sound-WeaklySound S _ (run_case-Sound res (by_reg r v s t) h (λ e. cc))
  run_case-WeaklySound res (by_vendor v s t) h =
      Sound-WeaklySound S _ (run_case-Sound res (by_vendor v s t) h (λ e. cc))
  run_case-WeaklySound res refused h =
      Sound-WeaklySound S _ (run_case-Sound res refused h (λ e. cc))

  found_case-WeaklySound : (res : ℕ) → WeaklySound (run_case hal fd i2c_addr (find_case res cases))
  found_case-WeaklySound res =
      run_case-WeaklySound res (find_case res cases)
        (all_cases-find_case writes_name res cases cases_write_name (unfold writes_name in refl))

  read_id-KeepsCtx : (reg : ℕ) (d : Dev S) → (i2c_read hal fd i2c_addr reg 2 1 d).1.ctx ≡ d.ctx
  unfolding i2c_read
  read_id-KeepsCtx reg d = refl

  refuse-WeaklySound : WeaklySound (refuse {S = S})
  refuse-WeaklySound = Sound-WeaklySound S _ (search verdict)

  smartsens_switch-WeaklySound : WeaklySound (smartsens_switch hal fd i2c_addr)
  unfolding smartsens_switch
  smartsens_switch-WeaklySound =
      search
        (
          bind-WeaklySound, if-WeaklySound, read_id-KeepsCtx, refuse-WeaklySound,
          found_case-WeaklySound,
        )
        depth 20

  -- Whatever the bus holds, a detection that answers false leaves the context as it was.
  pub detect_smartsens_sensor-NamedOrSame :
      (d : Dev S) → Answer NamedOrSame (detect_smartsens_sensor hal fd i2c_addr) d
  unfolding detect_smartsens_sensor
  detect_smartsens_sensor-NamedOrSame =
      run_blocks-NamedOrSame _
        (behind-WeaklySound S _ _ (search verdict) smartsens_switch-WeaklySound)

  -- A read whose answer is known.
  bind_known-Sound :
      (m : M S ℕ) (k : ℕ → M S (Option Bool)) (a : ℕ)
      → KeepsCtx m
      → ((d : Dev S) → (m d).0 ≡ a)
      → Sound (k a)
      → Sound (m >>= k)
  unfolding Sound KeepsCtx ◌>>=◌
  bind_known-Sound m k a h known hk d =
      let hk' : Sound (k (m d).0) = subst (λ x. Sound (k x)) (sym (known d)) hk in
      let r = hk' (m d).1 in (λ e. r.0 e ∙ h d, r.1)

  read_id-keeps : (reg : ℕ) → KeepsCtx (i2c_read hal fd i2c_addr reg 2 1)
  unfolding KeepsCtx
  read_id-keeps reg = read_id-KeepsCtx reg

  found_case-Sound :
      (res : ℕ)
      → res ≢ 0xda23
      → res ≢ 0xdc42
      → Sound (run_case hal fd i2c_addr (find_case res cases))
  found_case-Sound res ne ne' =
      let h =
        all_cases-find_case writes_name res cases cases_write_name (unfold writes_name in refl) in
      run_case-Sound res (find_case res cases) h
        (λ e. unnamed-ids res ne ne' (subst (λ c. writes_name res c ≡ true) e h))

  -- On a bus whose id registers do not hold 0xda23 or 0xdc42 a SmartSens detection that answers
  -- false leaves the context as it was, and one that answers true leaves a sensor name in it that
  -- is not empty.
  pub detect_smartsens_sensor-Named :
      (high lower : ℕ)
      → bit_or (u32 (high <<< 8)) lower ≢ 0xda23
      → bit_or (u32 (high <<< 8)) lower ≢ 0xdc42
      → ((s : S) → (hal.i2c_read_register s fd i2c_addr 0x3107 2 1).0 ≡ high)
      → ((s : S) → (hal.i2c_read_register s fd i2c_addr 0x3108 2 1).0 ≡ lower)
      → (d : Dev S) → Answer Named (detect_smartsens_sensor hal fd i2c_addr) d
  unfolding detect_smartsens_sensor smartsens_switch i2c_read
  detect_smartsens_sensor-Named high lower ne ne' high_is lower_is =
      let at_lower =
        bind_known-Sound (i2c_read hal fd i2c_addr 0x3108 2 1) _ lower (read_id-keeps 0x3108)
          (λ d. lower_is d.bus)
          (if-Sound S (lower == minus_one) _ _ (refuse-Sound S)
            (found_case-Sound (bit_or (u32 (high <<< 8)) lower) ne ne')) in
      let at_high =
        bind_known-Sound (i2c_read hal fd i2c_addr 0x3107 2 1) _ high (read_id-keeps 0x3107)
          (λ d. high_is d.bus) (if-Sound S (high == minus_one) _ _ (refuse-Sound S) at_lower) in
      run_blocks-Named _ (behind-Sound S _ _ (search verdict) at_high)

  -- On a bus that can be addressed, if the id registers of a SmartSens sensor hold 0xda23 or
  -- 0xdc42, the detector answers true and changes nothing in the context: no name is written.
  pub detect_smartsens_sensor-unnamed :
      (high lower : ℕ)
      → (high ≡ 0xda) × (lower ≡ 0x23) ⊎ (high ≡ 0xdc) × (lower ≡ 0x42)
      → ((s : S) → (hal.i2c_change_addr s fd i2c_addr).0 ≡ 0)
      → ((s : S) → (hal.i2c_read_register s fd i2c_addr 0x3107 2 1).0 ≡ high)
      → ((s : S) → (hal.i2c_read_register s fd i2c_addr 0x3108 2 1).0 ≡ lower)
      → (d : Dev S) → d.dummy_addr ≡ false
      → ((detect_smartsens_sensor hal fd i2c_addr d).0 ≡ true)
        × ((detect_smartsens_sensor hal fd i2c_addr d).1.ctx ≡ d.ctx)
  unfolding detect_smartsens_sensor run_blocks ◌>>=◌ select change_addr i2c_read accept
  detect_smartsens_sensor-unnamed high lower (inl e) change high_is lower_is d real = (
    simp (change, high_is, lower_is, real, e.0, e.1),
    simp (change, high_is, lower_is, real, e.0, e.1),
  )
  detect_smartsens_sensor-unnamed high lower (inr e) change high_is lower_is d real = (
    simp (change, high_is, lower_is, real, e.0, e.1),
    simp (change, high_is, lower_is, real, e.0, e.1),
  )
