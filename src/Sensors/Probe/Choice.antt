-- ===== src/Sensors/Probe/Choice.antt =====
-- What `detect_possible_sensors` and `get_sensor_id_i2c` answer, over any platform and any table.
use ipctool.Base.{
  ℕ, zero, suc, Bool, true, false, Option, some, none, List, [], ◌∷◌, ◌≡◌, ◌≢◌, ◌∙◌, sym, ◌⊎◌, inl,
  inr, refl, arith, ◌==◌, minus_one, Bool-cases, ==_iff,
}
use mathlib.Core.Bool.{false≢true}
use mathlib.Core.Path.{subst}
use ipctool.Sensors.Bus.{SensorCtx, Hal, Dev, M, ◌>>=◌, pure, i2c_reader}
use ipctool.Sensors.Probe.{
  SensorAddr, SensorType, type_code, try_addrs, try_row, try_rows, detect_possible_sensors, Vendor,
  vendors, run_chain, get_sensor_id_i2c, open_i2c, set_reader,
}
use ipctool.Sensors.Verdict.{After, Answer, After-of, After-true, After-false}
use ipctool.Sensors.Soi.Naming.{detect_soi_sensor-Named, detect_onsemi_sensor-Named}
use ipctool.Sensors.Omni.Naming.{detect_omni_sensor-Named}
use ipctool.Sensors.Sony.Naming.{detect_sony_sensor-Named}
use ipctool.Sensors.Smartsens.Naming.{detect_smartsens_sensor-NamedOrSame}
use ipctool.Sensors.Superpix.Naming.{detect_galaxycore_sensor-Named, detect_superpix_sensor-Named}
use ipctool.Sensors.Others.Naming.{
  detect_techpoint_adc-Named, detect_imagedesign_sensor-Named, detect_visemi_sensor-Named,
  detect_cvsens_sensor-Named,
}

-- `a` is an address of the row, in front of its terminator.
abbrev pub InAddrs : List ℕ → ℕ → Type 0
InAddrs [] a = ⊥
InAddrs (zero ∷ addrs) a = ⊥
InAddrs (suc n ∷ addrs) a = (a ≡ suc n) ⊎ InAddrs addrs a

-- `a` is an address of a row of the type, in front of the row of type 0.
abbrev pub Listed : List SensorAddr → ℕ → ℕ → Type 0
Listed [] type a = ⊥
Listed (row ∷ rows) type a =
    (row.sensor_type ≢ 0) × ((row.sensor_type ≡ type) × InAddrs row.addrs a ⊎ Listed rows type a)

abbrev pub ListedIn : Option (List SensorAddr) → SensorType → ℕ → Type 0
ListedIn none type a = ⊥
ListedIn (some rows) type a = Listed rows (type_code type) a

-- A computation that keeps the context when it answers false.
abbrev Quiet : {S : Type 0} → M S Bool → Type 0
Quiet {S} m = (d : Dev S) → (m d).0 ≡ false → (m d).1.ctx ≡ d.ctx

module _ {S : Type 0} (detect_fn : ℕ → M S Bool) (quiet : (a : ℕ) → Quiet (detect_fn a)) where
  try_addrs-Quiet : (addrs : List ℕ) → Quiet (try_addrs detect_fn addrs)
  unfolding try_addrs
  try_addrs-Quiet [] d h = refl
  try_addrs-Quiet (zero ∷ addrs) d h = refl
  try_addrs-Quiet (suc n ∷ addrs) d h =
      ground (arith, quiet (suc n) d, try_addrs-Quiet addrs (detect_fn (suc n) d).1)

  try_addrs-InAddrs :
      (addrs : List ℕ) (d : Dev S)
      → (try_addrs detect_fn addrs d).0 ≡ true
      → InAddrs addrs (try_addrs detect_fn addrs d).1.ctx.addr
  unfolding try_addrs
  try_addrs-InAddrs [] d h = cc
  try_addrs-InAddrs (zero ∷ addrs) d h = cc
  try_addrs-InAddrs (suc n ∷ addrs) d h =
      ground (arith, try_addrs-InAddrs addrs (detect_fn (suc n) d).1)

  try_row-Quiet : (type : ℕ) (row : SensorAddr) → Quiet (try_row detect_fn type row)
  unfolding try_row
  try_row-Quiet type row d h = elim (Bool-cases (row.sensor_type == type)) [
    | inl t ↦ rw t (try_addrs-Quiet row.addrs d (rw t at h))
    | inr f ↦ rw f
  ]

  try_row-InAddrs :
      (type : ℕ) (row : SensorAddr) (d : Dev S)
      → (try_row detect_fn type row d).0 ≡ true
      → (row.sensor_type ≡ type) × InAddrs row.addrs (try_row detect_fn type row d).1.ctx.addr
  unfolding try_row
  try_row-InAddrs type row d h = elim (Bool-cases (row.sensor_type == type)) [
    | inl t ↦ ((==_iff row.sensor_type type).0 t, rw t (try_addrs-InAddrs row.addrs d (rw t at h)))
    | inr f ↦ absurd (false≢true (rw f at h))
  ]

  try_rows-Quiet : (type : ℕ) (rows : List SensorAddr) → Quiet (try_rows detect_fn type rows)
  unfolding try_rows
  try_rows-Quiet type [] d h = refl
  try_rows-Quiet type (row ∷ rows) d h =
      ground
        (arith, try_row-Quiet type row d, try_rows-Quiet type rows (try_row detect_fn type row d).1)

  -- One row in front of the others.
  Listed-cons :
      (type : ℕ) (row : SensorAddr) (rows : List SensorAddr) (d : Dev S)
      → ((e : Dev S)
          → (try_rows detect_fn type rows e).0 ≡ true
          → Listed rows type (try_rows detect_fn type rows e).1.ctx.addr)
      → (try_rows detect_fn type (row ∷ rows) d).0 ≡ true
      → Listed (row ∷ rows) type (try_rows detect_fn type (row ∷ rows) d).1.ctx.addr
  unfolding try_rows
  Listed-cons type row rows d later h = elim (Bool-cases (row.sensor_type == 0)) [
    | inl z ↦ absurd (false≢true (rw z at h))
    | inr nz ↦ elim (Bool-cases (try_row detect_fn type row d).0) [
      | inl hit ↦ (ground arith, inl (rw (nz, hit) (try_row-InAddrs type row d hit)))
      | inr miss ↦ (
        ground arith,
        inr (rw (nz, miss) (later (try_row detect_fn type row d).1 (rw (nz, miss) at h))),
      )
    ]
  ]

  try_rows-Listed :
      (type : ℕ) (rows : List SensorAddr) (d : Dev S)
      → (try_rows detect_fn type rows d).0 ≡ true
      → Listed rows type (try_rows detect_fn type rows d).1.ctx.addr
  try_rows-Listed type [] d h = absurd (false≢true (unfold try_rows in h))
  try_rows-Listed type (row ∷ rows) d h = Listed-cons type row rows d (try_rows-Listed type rows) h

-- The context's address stands in the platform's table, in a row of the sensor's type.
abbrev pub AtListed : Option (List SensorAddr) → SensorType → SensorCtx → SensorCtx → Type 0
AtListed table type before after = ListedIn table type after.addr

module _ {S : Type 0} (table : Option (List SensorAddr)) where
  -- If every call of the detector keeps the context when it answers false, so does the search; if it
  -- answers true, the address written to the context stands in the platform's table, in a row of the
  -- sensor's type.
  pub detect_possible_sensors-AtListed :
      (detect_fn : ℕ → M S Bool) (type : SensorType)
      → ((a : ℕ) → Quiet (detect_fn a))
      → (d : Dev S) → Answer (AtListed table type) (detect_possible_sensors table detect_fn type) d
  detect_possible_sensors-AtListed detect_fn type quiet d = go table
    where
      go :
          (t : Option (List SensorAddr))
          → After
              (λ before after. ListedIn t type after.addr)
              (detect_possible_sensors t detect_fn type d).0
              d.ctx
              (detect_possible_sensors t detect_fn type d).1.ctx
      go none = unfold detect_possible_sensors in refl
      go (some rows) =
          unfold detect_possible_sensors in
          After-of _ _ _ _ (try_rows-Quiet detect_fn quiet (type_code type) rows d)
            (try_rows-Listed detect_fn quiet (type_code type) rows d)

  -- What a hit sets beside the vendor are widths.
  abbrev pub SetsWidths : Vendor S → Type 0
  SetsWidths v =
      (c : SensorCtx)
      → ((v.settle c).vendor ≡ c.vendor)
        × ((v.settle c).addr ≡ c.addr)
        × ((v.settle c).sensor_id ≡ c.sensor_id)

  abbrev WellBehaved : List (Vendor S) → Type 0
  WellBehaved [] = Unit
  WellBehaved (v ∷ vs) = ((fd a : ℕ) → Quiet (v.detect fd a)) × SetsWidths v × WellBehaved vs

  -- The context names a vendor of the list, and an address of the table for that vendor's type.
  abbrev pub Chosen : List (Vendor S) → SensorCtx → SensorCtx → Type 0
  Chosen [] before after = ⊥
  Chosen (v ∷ vs) before after =
      (after.vendor ≡ v.name) × AtListed table v.kind before after ⊎ Chosen vs before after

-- Behind a step that kept the context.
After-later :
    (Good Good' : SensorCtx → SensorCtx → Type 0) (b : Bool) (mid before after : SensorCtx)
    → mid ≡ before
    → (Good mid after → Good' before after)
    → After Good b mid after
    → After Good' b before after
After-later Good Good' false mid before after e f h = h ∙ e
After-later Good Good' true mid before after e f h = f h

module _ {S : Type 0} (hal : Hal S) (table : Option (List SensorAddr)) (fd : ℕ) where
  -- The same choice, whatever the context was before.
  Chosen-before :
      (vs : List (Vendor S)) (b b' c : SensorCtx) → Chosen table vs b c → Chosen table vs b' c
  Chosen-before [] b b' c h = absurd h
  Chosen-before (v ∷ vs) b b' c (inl h) = inl h
  Chosen-before (v ∷ vs) b b' c (inr h) = inr (Chosen-before vs b b' c h)

  run_chain-Chosen :
      (vs : List (Vendor S))
      → WellBehaved table vs
      → (d : Dev S) → Answer (Chosen table vs) (run_chain hal table fd vs) d
  unfolding run_chain
  run_chain-Chosen [] w d = refl
  run_chain-Chosen (v ∷ vs) w d =
      let r = detect_possible_sensors table (v.detect fd) v.kind d in
      let first = detect_possible_sensors-AtListed table (v.detect fd) v.kind (w.0 fd) d in
      let later = run_chain-Chosen vs w.2 r.1 in
      elim (Bool-cases r.0) [
        | inl hit ↦ rw hit (
            inl (
              (w.1 _).0,
              subst (ListedIn table v.kind) (sym (w.1 _).1)
                  (After-true (AtListed table v.kind) _ _ _ first hit),
            ))
        | inr miss ↦ rw miss (
            After-later (Chosen table vs) (Chosen table (v ∷ vs)) (run_chain hal table fd vs r.1).0
              r.1.ctx d.ctx _ (After-false (AtListed table v.kind) r.0 d.ctx r.1.ctx first miss)
              (λ h. inr (Chosen-before vs r.1.ctx d.ctx _ h)) later)
      ]

  vendors-WellBehaved : WellBehaved table (vendors hal table)
  unfolding vendors
  vendors-WellBehaved = (
    λ fd a d. After-false _ _ _ _ (detect_soi_sensor-Named hal fd a d),
    λ c. (refl, refl, refl),
    (
      λ fd a d. After-false _ _ _ _ (detect_onsemi_sensor-Named hal fd a d),
      λ c. (refl, refl, refl),
      (
        λ fd a d. After-false _ _ _ _ (detect_omni_sensor-Named hal fd a d),
        λ c. (refl, refl, refl),
        (
          λ fd a d. After-false _ _ _ _ (detect_sony_sensor-Named hal fd a d),
          λ c. (refl, refl, refl),
          (
            λ fd a d. After-false _ _ _ _ (detect_smartsens_sensor-NamedOrSame hal fd a d),
            λ c. (refl, refl, refl),
            (
              λ fd a d. After-false _ _ _ _ (detect_galaxycore_sensor-Named hal fd a d),
              λ c. (refl, refl, refl),
              (
                λ fd a d. After-false _ _ _ _ (detect_superpix_sensor-Named hal fd a d),
                λ c. (refl, refl, refl),
                (
                  λ fd a d. After-false _ _ _ _ (detect_techpoint_adc-Named hal fd a d),
                  λ c. (refl, refl, refl),
                  (
                    λ fd a d. After-false _ _ _ _ (detect_imagedesign_sensor-Named hal fd a d),
                    λ c. (refl, refl, refl),
                    (
                      λ fd a d. After-false _ _ _ _ (detect_visemi_sensor-Named hal fd a d),
                      λ c. (refl, refl, refl),
                      (
                        λ fd a d. After-false _ _ _ _ (detect_cvsens_sensor-Named hal fd a d),
                        λ c. (refl, refl, refl),
                        tt,
                      ),
                    ),
                  ),
                ),
              ),
            ),
          ),
        ),
      ),
    ),
  )

module _ {S : Type 0} (hal : Hal S) (table : Option (List SensorAddr)) where
  -- I2C detection that answers false leaves the context as it was. If it answers true, the context
  -- names one of the eleven vendors, and its address stands in the platform's table in a row of that
  -- vendor's type.
  pub get_sensor_id_i2c-Chosen :
      (d : Dev S) → Answer (Chosen table (vendors hal table)) (get_sensor_id_i2c hal table) d
  unfolding get_sensor_id_i2c ◌>>=◌ pure
  get_sensor_id_i2c-Chosen d =
      let (fd, opened) = open_i2c hal table d in
      let (_, ready) = set_reader hal table i2c_reader opened in
      elim (Bool-cases (fd == minus_one)) [
        | inl closed ↦ rw closed refl
        | inr open' ↦ rw open' (
            run_chain-Chosen hal table fd (vendors hal table) (vendors-WellBehaved hal table fd)
              ready)
      ]
