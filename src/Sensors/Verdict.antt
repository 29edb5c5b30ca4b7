-- ===== src/Sensors/Verdict.antt =====
-- What a detector's answer says of the context, as a postcondition with one rule for each
-- construct of the detection monad. The proofs about the detectors are searches over the rules.
use ipctool.Base.{
  ◌⊎◌, ℕ, Bool, true, false, Option, some, [], ◌∷◌, ◌++◌, ◌≡◌, ◌≢◌, ◌∙◌, refl, arith, if◌then◌else◌,
  String,
}
use ipctool.Base.Bytes.{Bytes, codes}
use ipctool.Sensors.Bus.{
  SensorCtx, Hal, Dev, M, ◌>>=◌, pure, ◌&&&◌, set_sensor_id, go_on, refuse, accept, name_it,
  ◌behind◌, run_blocks, change_addr, select, i2c_read, i2c_write, read_0, read_is,
}

-- A computation that leaves the context alone.
unfoldable pub KeepsCtx : {S A : Type 0} → M S A → Type 0
KeepsCtx {S} m = (d : Dev S) → (m d).1.ctx ≡ d.ctx

-- A computation that leaves the sensor's name alone.
unfoldable pub KeepsId : {S : Type 0} → M S (Unit {0}) → Type 0
KeepsId {S} m = (d : Dev S) → (m d).1.ctx.sensor_id ≡ d.ctx.sensor_id

-- A block that answers true has written a name, and one that does not has written nothing.
unfoldable pub Sound : {S : Type 0} → M S (Option Bool) → Type 0
Sound {S} m =
    (d : Dev S)
    → ((m d).0 ≢ some true → (m d).1.ctx ≡ d.ctx)
      × ((m d).0 ≡ some true → (m d).1.ctx.sensor_id ≢ [])

unfoldable pub IsName : Bytes → Type 0
IsName text = text ≢ []

abbrev pub NonEmpty : String → Type 0
NonEmpty String.[] = ⊥
NonEmpty (String.◌∷◌ c s) = Unit

pub IsName-codes : (s : String) → NonEmpty s → IsName (codes s)
unfolding IsName codes
IsName-codes String.[] h = absurd h
IsName-codes (String.◌∷◌ c s) h = λ e. ground arith

pub IsName-append : (a b : Bytes) → IsName a → IsName (a ++ b)
unfolding IsName
IsName-append [] b h = absurd (h refl)
IsName-append (x ∷ a) b h = λ e. ground arith

pub IsName-if : (t : Bool) (a b : Bytes) → IsName a → IsName b → IsName (if t then a else b)
IsName-if true a b h k = h
IsName-if false a b h k = k

module _ (S : Type 0) where
  pub pure-KeepsCtx : (A : Type 0) (a : A) → KeepsCtx (pure {S = S} a)
  unfolding KeepsCtx pure
  pure-KeepsCtx A a d = refl

  pub bind-KeepsCtx :
      (A B : Type 0) (m : M S A) (k : A → M S B)
      → KeepsCtx m
      → ((a : A) → KeepsCtx (k a))
      → KeepsCtx (m >>= k)
  unfolding KeepsCtx ◌>>=◌
  bind-KeepsCtx A B m k h hk d = hk (m d).0 (m d).1 ∙ h d

  pub and-KeepsCtx : (m k : M S Bool) → KeepsCtx m → KeepsCtx k → KeepsCtx (m &&& k)
  unfolding KeepsCtx ◌&&&◌
  and-KeepsCtx m k h hk d = ground (arith, h d, hk (m d).1)

  pub bind-Sound :
      (A : Type 0) (m : M S A) (k : A → M S (Option Bool))
      → KeepsCtx m
      → ((a : A) → Sound (k a))
      → Sound (m >>= k)
  unfolding KeepsCtx Sound ◌>>=◌
  bind-Sound A m k h hk d = let r = hk (m d).0 (m d).1 in (λ e. r.0 e ∙ h d, r.1)

  pub if-Sound :
      (t : Bool) (m k : M S (Option Bool)) → Sound m → Sound k → Sound (if t then m else k)
  if-Sound true m k h hk = h
  if-Sound false m k h hk = hk

  pub go_on-Sound : Sound (go_on {S = S})
  unfolding Sound go_on
  go_on-Sound d = (λ _. refl, λ e. cc)

  pub refuse-Sound : Sound (refuse {S = S})
  unfolding Sound refuse
  refuse-Sound d = (λ _. refl, λ e. cc)

  -- After a name is written, whatever keeps it and then accepts is sound.
  pub name-Sound :
      (text : Bytes) (m : M S (Unit {0}))
      → IsName text
      → KeepsId m
      → Sound (set_sensor_id text >>= λ _. m >>= λ _. accept)
  unfolding Sound KeepsId IsName set_sensor_id accept ◌>>=◌
  name-Sound text m h hk d = (
    λ e. absurd (e refl),
    λ _. rw (hk (record d { ctx = record (d.ctx) { sensor_id = text } })) h,
  )

  pub name_it-Sound : (text : Bytes) → IsName text → Sound (name_it {S = S} text)
  unfolding Sound IsName name_it
  name_it-Sound text h d = (λ e. absurd (e refl), λ _. h)

  -- A name that a second one replaces.
  pub rename-Sound :
      (text text' : Bytes)
      → IsName text'
      → Sound (set_sensor_id {S = S} text >>= λ _. name_it text')
  unfolding Sound IsName set_sensor_id name_it ◌>>=◌
  rename-Sound text text' h d = (λ e. absurd (e refl), λ _. h)

  pub behind-Sound : (m k : M S (Option Bool)) → Sound m → Sound k → Sound (m behind k)
  unfolding Sound ◌behind◌
  behind-Sound m k h hk d = ground (arith, (h d).0, (h d).1, (hk (m d).1).0, (hk (m d).1).1)

-- The answer of a detector, and the contexts before and after it: false leaves the context as it
-- was, and true goes with `Good`.
abbrev pub After : (SensorCtx → SensorCtx → Type 0) → Bool → SensorCtx → SensorCtx → Type 0
After Good false before after = after ≡ before
After Good true before after = Good before after

abbrev pub Answer : {S : Type 0} → (SensorCtx → SensorCtx → Type 0) → M S Bool → Dev S → Type 0
Answer Good m d = After Good (m d).0 d.ctx (m d).1.ctx

-- The sensor has a name.
abbrev pub Named : SensorCtx → SensorCtx → Type 0
Named before after = after.sensor_id ≢ []

abbrev pub NamedOrSame : SensorCtx → SensorCtx → Type 0
NamedOrSame before after = (after.sensor_id ≢ []) ⊎ (after ≡ before)

pub After-of :
    (Good : SensorCtx → SensorCtx → Type 0) (b : Bool) (before after : SensorCtx)
    → (b ≡ false → after ≡ before)
    → (b ≡ true → Good before after)
    → After Good b before after
After-of Good false before after h k = h refl
After-of Good true before after h k = k refl

pub After-false :
    (Good : SensorCtx → SensorCtx → Type 0) (b : Bool) (before after : SensorCtx)
    → After Good b before after
    → b ≡ false
    → after ≡ before
After-false Good false before after h e = h
After-false Good true before after h e = cc

pub After-true :
    (Good : SensorCtx → SensorCtx → Type 0) (b : Bool) (before after : SensorCtx)
    → After Good b before after
    → b ≡ true
    → Good before after
After-true Good false before after h e = cc
After-true Good true before after h e = h

pub run_blocks-Named :
    {S : Type 0} (m : M S (Option Bool)) → Sound m → (d : Dev S) → Answer Named (run_blocks m) d
unfolding Sound run_blocks
run_blocks-Named m h d =
    After-of Named _ _ _ (ground (arith, (h d).0, (h d).1)) (ground (arith, (h d).0, (h d).1))

module _ {S : Type 0} (hal : Hal S) where
  pub change_addr-KeepsCtx : (fd addr : ℕ) → KeepsCtx (change_addr hal fd addr)
  unfolding KeepsCtx change_addr
  change_addr-KeepsCtx fd addr d = refl

  pub i2c_read-KeepsCtx : (fd addr reg w n : ℕ) → KeepsCtx (i2c_read hal fd addr reg w n)
  unfolding KeepsCtx i2c_read
  i2c_read-KeepsCtx fd addr reg w n d = refl

  pub i2c_write-KeepsCtx : (fd addr reg w v n : ℕ) → KeepsCtx (i2c_write hal fd addr reg w v n)
  unfolding KeepsCtx i2c_write
  i2c_write-KeepsCtx fd addr reg w v n d = refl

  pub read_0-KeepsCtx : (fd addr reg : ℕ) → KeepsCtx (read_0 hal fd addr reg)
  unfolding KeepsCtx read_0
  read_0-KeepsCtx fd addr reg d = refl

  pub read_is-KeepsCtx : (fd addr reg v : ℕ) → KeepsCtx (read_is hal fd addr reg v)
  unfolding KeepsCtx read_is ◌>>=◌
  read_is-KeepsCtx fd addr reg v d = refl

  pub select-Sound : (fd addr : ℕ) → Sound (select hal fd addr)
  unfolding select
  select-Sound fd addr =
      search (bind-Sound, change_addr-KeepsCtx, if-Sound, refuse-Sound, go_on-Sound)

pub ruleset verdict = (
  pure-KeepsCtx, bind-KeepsCtx, and-KeepsCtx, bind-Sound, if-Sound, go_on-Sound, refuse-Sound,
  name-Sound, name_it-Sound, rename-Sound, behind-Sound, i2c_read-KeepsCtx, i2c_write-KeepsCtx,
  read_0-KeepsCtx, read_is-KeepsCtx, select-Sound, IsName-codes, IsName-append, IsName-if, tt,
)
