-- ===== src/Pinmux/Gpio/Address.antt =====
-- The addresses that `gpio get` and `gpio set` use.
use mathlib.Core.Path.{subst}
use ipctool.Base.{
  ℕ, zero, suc, ◌+◌, ◌*◌, ◌%◌, ◌^◌, ◌<◌, ◌≤◌, Option, none, some, Bool, true, false, [], ◌∷◌, ◌≡◌,
  ◌≢◌, ◌⊎◌, inl, inr, refl, ap, arith, if◌then◌else◌, ◌||◌, u32,
}
use ipctool.Base.Bytes.{Bytes}
use ipctool.Pinmux.Select.{is_chip, is_16ev300, is_16dv200}
use ipctool.Pinmux.Gpio.{Blocks, blocks, get_chip_gpio_adress, data_address, direction_address}

-- A table of blocks of 4 or 64 KiB that ends below 2 ^ 32.
pub record Sound (b : Blocks) : Type 0 where
  pub base_whole : b.gpio_base % 4096 ≡ 0
  pub base_below : b.gpio_base < 0x2100_0000
  pub offset_known : (b.gpio_offset ≡ 0x1000) ⊎ (b.gpio_offset ≡ 0x10000)
  pub few_groups : b.gpio_groups ≤ 17

SoundIf : Option Blocks → Type 0
SoundIf none = Unit {0}
SoundIf (some b) = Sound b

none-SoundIf : SoundIf none
unfolding SoundIf
none-SoundIf = tt

if-SoundIf : (t : Bool) (r s : Option Blocks) → SoundIf r → SoundIf s → SoundIf (if t then r else s)
if-SoundIf true r s h k = h
if-SoundIf false r s h k = k

blocks-SoundIf :
    (base offset groups : ℕ)
    → base % 4096 ≡ 0
    → base < 0x2100_0000
    → (offset ≡ 0x1000) ⊎ (offset ≡ 0x10000)
    → groups ≤ 17
    → SoundIf (blocks base offset groups)
unfolding SoundIf blocks
blocks-SoundIf base offset groups h k o g = record {
  base_whole = h;
  base_below = k;
  offset_known = o;
  few_groups = g;
}

get_chip_gpio_adress-SoundIf :
    (generation : ℕ) (c : Bytes) → SoundIf (get_chip_gpio_adress generation c)
unfolding get_chip_gpio_adress
get_chip_gpio_adress-SoundIf generation c =
    search
      (
        if-SoundIf,
        none-SoundIf,
        blocks-SoundIf 0x20140000 0x10000 12 refl (omega arith) (inr refl) (omega arith),
        blocks-SoundIf 0x20140000 0x10000 (if is_chip c ("3516AV100" ∷ []) then 17 else 15) refl
            (omega arith) (inr refl) (ground arith),
        blocks-SoundIf 0x20140000 0x10000 9 refl (omega arith) (inr refl) (omega arith),
        blocks-SoundIf 0x12140000 0x1000 16 refl (omega arith) (inl refl) (omega arith),
        blocks-SoundIf 0x12140000 0x1000 9 refl (omega arith) (inl refl) (omega arith),
        blocks-SoundIf 0x120D0000 0x1000 12 refl (omega arith) (inl refl) (omega arith),
        blocks-SoundIf 0x11090000 0x1000 11 refl (omega arith) (inl refl) (omega arith),
        blocks-SoundIf 0x120B0000 0x1000 (if is_16ev300 c || is_16dv200 c then 10 else 9) refl
            (omega arith) (inl refl) (ground arith),
        blocks-SoundIf 0x12150000 0x10000 14 refl (omega arith) (inr refl) (omega arith),
        blocks-SoundIf 0x12150000 0x10000 6 refl (omega arith) (inr refl) (omega arith),
      )
      depth 30

pub get_chip_gpio_adress-Sound :
    (generation : ℕ) (c : Bytes) (b : Blocks) → get_chip_gpio_adress generation c ≡ some b → Sound b
unfolding SoundIf
get_chip_gpio_adress-Sound generation c b e =
    subst SoundIf e (get_chip_gpio_adress-SoundIf generation c)

-- A pin's number within its group gives a power of two up to 128.
power_bounds : (n : ℕ) → n < 8 → (1 ≤ 2 ^ n) × (2 ^ n ≤ 128) × (2 ^ u32 (2 + n) ≡ 4 * 2 ^ n)
power_bounds zero h = (omega arith, omega arith, refl)
power_bounds (suc zero) h = (omega arith, omega arith, refl)
power_bounds (suc (suc zero)) h = (omega arith, omega arith, refl)
power_bounds (suc (suc (suc zero))) h = (omega arith, omega arith, refl)
power_bounds (suc (suc (suc (suc zero)))) h = (omega arith, omega arith, refl)
power_bounds (suc (suc (suc (suc (suc zero))))) h = (omega arith, omega arith, refl)
power_bounds (suc (suc (suc (suc (suc (suc zero)))))) h = (omega arith, omega arith, refl)
power_bounds (suc (suc (suc (suc (suc (suc (suc zero))))))) h = (omega arith, omega arith, refl)
power_bounds (suc (suc (suc (suc (suc (suc (suc (suc n)))))))) h = absurd (omega arith)

power_injective : (n m : ℕ) → 2 ^ n ≡ 2 ^ m → n ≡ m
power_injective zero zero e = refl
power_injective zero (suc m) e = absurd (omega (arith, e))
power_injective (suc n) zero e = absurd (omega (arith, e))
power_injective (suc n) (suc m) e = ap suc (power_injective n m (omega (arith, e)))

-- Two places of 4 to 0x400 bytes within blocks of either size, in the first 18 blocks.
split_blocks :
    (b : Blocks)
    → Sound b
    → (g h v w : ℕ) → g ≤ b.gpio_groups
    → h ≤ b.gpio_groups
    → v ≤ 0x400
    → w ≤ 0x400
    → u32 (b.gpio_base + g * b.gpio_offset + v) ≡ u32 (b.gpio_base + h * b.gpio_offset + w)
    → (g ≡ h) × (v ≡ w)
split_blocks b sound g h v w gs hs vs ws e =
    let low = sound.base_below in
    let few = sound.few_groups in
    elim sound.offset_known [
      | inl o ↦
          let e' = subst (λ k. u32 (b.gpio_base + g * k + v) ≡ u32 (b.gpio_base + h * k + w)) o e in
          (omega (arith, e', low, few), omega (arith, e', low, few))
      | inr o ↦
          let e' = subst (λ k. u32 (b.gpio_base + g * k + v) ≡ u32 (b.gpio_base + h * k + w)) o e in
          (omega (arith, e', low, few), omega (arith, e', low, few))
    ]

module _ (generation : ℕ) (c : Bytes) (b : Blocks)
    (known : get_chip_gpio_adress generation c ≡ some b) where
  -- On a supported chip, the words that stand for two pins of its groups, or of the group behind
  -- them, which the commands accept too, are at one address only where it is the same pin.
  pub data_address-injective :
      (group num group' num' : ℕ)
      → group ≤ b.gpio_groups
      → group' ≤ b.gpio_groups
      → num < 8
      → num' < 8
      → data_address b group num ≡ data_address b group' num'
      → (group ≡ group') × (num ≡ num')
  unfolding data_address
  data_address-injective group num group' num' h h' k k' e =
      let p = power_bounds num k in
      let q = power_bounds num' k' in
      let s =
        split_blocks b (get_chip_gpio_adress-Sound generation c b known) group group'
          (2 ^ u32 (2 + num)) (2 ^ u32 (2 + num')) h h' (omega (arith, p)) (omega (arith, q)) e in
      (s.0, power_injective num num' (omega (arith, p, q, s)))

  -- On a supported chip, the word of a pin is in no case the word of a group's directions.
  pub data_address-direction :
      (group num group' : ℕ)
      → group ≤ b.gpio_groups
      → group' ≤ b.gpio_groups
      → num < 8
      → data_address b group num ≢ direction_address b group'
  unfolding data_address direction_address
  data_address-direction group num group' h h' k e =
      let p = power_bounds num k in
      let s =
        split_blocks b (get_chip_gpio_adress-Sound generation c b known) group group'
          (2 ^ u32 (2 + num)) 0x400 h h' (omega (arith, p)) (omega arith) e in
      omega (arith, p, s)

  -- Both are words, and not at 0.
  pub data_address-word :
      (group num : ℕ)
      → num < 8
      → (data_address b group num % 4 ≡ 0) × (data_address b group num ≢ 0)
  unfolding data_address
  data_address-word group num k =
      let p = power_bounds num k in
      let sound = get_chip_gpio_adress-Sound generation c b known in
      let whole = sound.base_whole in
      elim sound.offset_known [
        | inl o ↦ rw o (omega (arith, p, whole), λ e. omega (arith, p, whole, e))
        | inr o ↦ rw o (omega (arith, p, whole), λ e. omega (arith, p, whole, e))
      ]

  pub direction_address-word :
      (group : ℕ) → (direction_address b group % 4 ≡ 0) × (direction_address b group ≢ 0)
  unfolding direction_address
  direction_address-word group =
      let sound = get_chip_gpio_adress-Sound generation c b known in
      let whole = sound.base_whole in
      elim sound.offset_known [
        | inl o ↦ rw o (omega (arith, whole), λ e. omega (arith, whole, e))
        | inr o ↦ rw o (omega (arith, whole), λ e. omega (arith, whole, e))
      ]
