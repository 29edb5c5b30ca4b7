-- ===== src/Sensors/Probe/Outcome.antt =====
-- What `getsensorid` returns, and the control interface that it writes to the context.
use ipctool.Base.{
  ℕ, Bool, true, false, Option, some, none, List, [], ◌∷◌, ◌≡◌, ◌⊎◌, inl, inr, refl, ◌==◌,
  if◌then◌else◌, Bool-cases, Option-cases,
}
use mathlib.Core.Path.{subst}
use ipctool.Base.Bytes.{codes}
use ipctool.Sensors.Bus.{SensorCtx, Hal, Dev, M, ◌>>=◌, ◌>>◌, pure}
use ipctool.Sensors.Probe.{SensorAddr, modify_ctx, try_adapter, try_adapters, getsensorid}

-- An answer and the context that goes with it: a detection names its control interface.
abbrev pub Controlled : Option Bool → SensorCtx → Type 0
Controlled (some true) c = (c.control ≡ codes "i2c") ⊎ (c.control ≡ codes "spi")
Controlled (some false) c = Unit {0}
Controlled none c = Unit {0}

module _ {S : Type 0} where
  unfoldable Answers : M S (Option Bool) → Type 0
  Answers m = (d : Dev S) → Controlled (m d).0 (m d).1.ctx

  bind-Answers :
      {A : Type 0} (m : M S A) (k : A → M S (Option Bool))
      → ((a : A) → Answers (k a))
      → Answers (m >>= k)
  unfolding Answers ◌>>=◌
  bind-Answers m k h d = h (m d).0 (m d).1

  if-Answers :
      (b : Bool) (m k : M S (Option Bool)) → Answers m → Answers k → Answers (if b then m else k)
  if-Answers true m k h h' = h
  if-Answers false m k h h' = h'

module _ (S : Type 0) where
  none-Answers : Answers (pure {S = S} none)
  unfolding Answers pure
  none-Answers d = tt

  false-Answers : Answers (pure {S = S} (some false))
  unfolding Answers pure
  false-Answers d = tt

  i2c-Answers :
      Answers {S = S} (do modify_ctx (λ c. record c { control = codes "i2c" }); pure (some true))
  unfolding Answers ◌>>=◌ pure
  i2c-Answers d = inl refl

  spi-Answers :
      Answers {S = S} (do modify_ctx (λ c. record c { control = codes "spi" }); pure (some true))
  unfolding Answers ◌>>=◌ pure
  spi-Answers d = inr refl

module _ {S : Type 0} (hal : Hal S) (table : Option (List SensorAddr)) where
  try_adapter-Answers : Answers (try_adapter hal table)
  unfolding try_adapter
  try_adapter-Answers = bind-Answers _ _ (λ fd. if-Answers _ _ _ (false-Answers S) (
      bind-Answers _ _ (λ _. bind-Answers _ _ (λ i2c.
        if-Answers i2c _ _ (i2c-Answers S)
          (bind-Answers _ _ (λ spi. if-Answers spi _ _ (spi-Answers S) (none-Answers S)))))))

  try_adapters-Controlled :
      (current : ℕ) (is : List ℕ) (d : Dev S)
      → Controlled
          (try_adapters hal table current is d).0
          (try_adapters hal table current is d).1.ctx
  unfolding try_adapters Answers
  try_adapters-Controlled current [] d = tt
  try_adapters-Controlled current (i ∷ is) d =
      let moved = record d { i2c_adapter_nr = i } in
      let r = try_adapter hal table moved in
      elim (Bool-cases (i == current)) [
        | inl same ↦ rw (try_adapters, same) (try_adapters-Controlled current is d)
        | inr other ↦ elim (Option-cases r.0) [
          | inl on ↦ rw (try_adapters, other, on) (try_adapters-Controlled current is r.1)
          | inr (v, ends) ↦
              rw (try_adapters, other, ends)
                (subst (λ o. Controlled o r.1.ctx) ends (try_adapter-Answers moved))
        ]
      ]

  -- `getsensorid` on an unknown chip answers false and touches nothing. Where it answers true, the
  -- context names "i2c" or "spi" as its control interface, whichever adapter was in use.
  pub getsensorid-Controlled :
      (d : Dev S)
      → (getsensorid hal table false d ≡ (some false, d))
        × Controlled (getsensorid hal table true d).0 (getsensorid hal table true d).1.ctx
  unfolding getsensorid Answers
  getsensorid-Controlled d =
      let r = try_adapter hal table d in
      (
        refl,
        elim (Option-cases r.0) [
          | inl on ↦
              rw on (try_adapters-Controlled d.i2c_adapter_nr (0 ∷ 1 ∷ 2 ∷ 3 ∷ 4 ∷ 5 ∷ []) r.1)
          | inr (v, ends) ↦ rw ends (subst (λ o. Controlled o r.1.ctx) ends (try_adapter-Answers d))
        ],
      )
