-- ===== src/Uboot/Detect/Scan.antt =====
-- The scan for the environment: it ends, and finds the first offset that holds one.
use ipctool.Base.{
  ◌==◌, ◌%◌, ◌^◌, u32, refl, false, ℕ, zero, suc, ◌+◌, ◌-◌, ◌*◌, ◌≤◌, ◌<◌, true, List, [], ◌∷◌,
  none, some, ◌≡◌, arith, ltb, Bool-cases, ◌∙◌, ltb→lt, inl, inr, ◌⊎◌,
}
use mathlib.Core.Path.{subst}
use native.Mathlib.Nat.{suc-mul}
use ipctool.Uboot.Crc.{crc32, le_word}
use ipctool.Uboot.Detect.{
  slice, crc_sz, possible_lens, size_t, scan_step, found_at, env_at, first_len, Detected, found,
  not_found, overrun, running, scan, uboot_detect_env,
}

module _ (word : ℕ) (buf : ℕ → ℕ) (size : ℕ) where
  -- The image holds an environment of this length: the checksum in front is that of what follows.
  abbrev pub HoldsEnv : ℕ → ℕ → Type 0
  HoldsEnv a len =
      (len + a ≤ size)
      × (crc32 word (slice buf (a + crc_sz) (len - crc_sz)) 0 ≡ le_word (slice buf a 4))

  abbrev pub AllNot : List ℕ → ℕ → Type 0
  AllNot [] a = Unit {0}
  AllNot (len ∷ lens) a = (¬ (HoldsEnv a len)) × AllNot lens a

  -- No length of the list fits.
  abbrev pub HoldsNone : ℕ → Type 0
  HoldsNone = AllNot possible_lens

  abbrev pub OneOf : List ℕ → ℕ → Type 0
  OneOf [] len = ⊥
  OneOf (l ∷ ls) len = (len ≡ l) ⊎ OneOf ls len

  abbrev AllSmall : List ℕ → Type 0
  AllSmall [] = Unit {0}
  AllSmall (l ∷ lens) = (l ≤ 0x4_0000) × AllSmall lens

  module _ (wide : (n : ℕ) → n < 2 ^ 32 → size_t word n ≡ n) (small : size < 0x8000_0000) (a : ℕ)
      (below : a < size) where
    -- Where nothing wraps round, one test reads inside the image.
    env_at-cases :
        (len : ℕ)
        → len ≤ 0x4_0000
        → (HoldsEnv a len × (env_at word buf size a len ≡ some true))
          ⊎ ((¬ (HoldsEnv a len)) × (env_at word buf size a len ≡ some false))
    unfolding env_at
    env_at-cases len short =
        let e : size_t word (len + a) ≡ len + a =
          wide (len + a) (omega (arith, small, below, short)) in
        elim (Bool-cases (ltb size (len + a))) [
          | inl past ↦ inr (λ v. absurd (ground (arith, past, v.0)), rw (e, past) refl)
          | inr inside ↦
              elim (Bool-cases
                (crc32 word (slice buf (a + crc_sz) (len - crc_sz)) 0 == le_word (slice buf a 4))) [
                  | inl same ↦
                      inl
                        ((ground (arith, inside), ground (arith, same)), rw (e, inside, same) refl)
                  | inr other ↦
                      inr (λ v. absurd (ground (arith, other, v.1)), rw (e, inside, other) refl)
                ]
        ]

    first_len-cases :
        (lens : List ℕ)
        → AllSmall lens
        → ((len : ℕ) × (first_len word buf size a lens ≡ some (some len))
            × HoldsEnv a len
            × OneOf lens len)
          ⊎ ((first_len word buf size a lens ≡ some none) × AllNot lens a)
    unfolding first_len
    first_len-cases [] h = inr (refl, tt)
    first_len-cases (l ∷ lens) h = elim (env_at-cases l h.0) [
      | inl (holds, e) ↦ inl (l, rw (first_len, e) refl, holds, inl refl)
      | inr (holds_not, e) ↦ elim (first_len-cases lens h.1) [
        | inl (len, r, holds, one) ↦ inl (len, rw (first_len, e, r) refl, holds, inr one)
        | inr (r, none') ↦ inr (rw (first_len, e, r) refl, (holds_not, none'))
      ]
    ]

module _ (word : ℕ) (buf : ℕ → ℕ) (size erasesize : ℕ) where
  -- What the scan of the offsets `start + n * erasesize` promises.
  abbrev pub Scanned : ℕ → Detected → Type 0
  Scanned start (found a len) =
      (n : ℕ) × (a ≡ start + n * erasesize)
      × (a < size)
      × HoldsEnv word buf size a len
      × OneOf word buf size possible_lens len
      × ((m : ℕ) → m < n → HoldsNone word buf size (start + m * erasesize))
  Scanned start not_found =
      (m : ℕ) → start + m * erasesize < size → HoldsNone word buf size (start + m * erasesize)
  Scanned start overrun = ⊥
  Scanned start running = ⊥

  offset-suc : (start m : ℕ) → start + erasesize + m * erasesize ≡ start + suc m * erasesize
  offset-suc start m = omega (arith, suc-mul m erasesize)

  -- `start`, and the offsets behind it.
  HoldsNone-cons :
      (P : ℕ → Type 0) (start : ℕ)
      → HoldsNone word buf size start
      → ((m : ℕ) → P (suc m) → HoldsNone word buf size (start + erasesize + m * erasesize))
      → (m : ℕ) → P m
      → HoldsNone word buf size (start + m * erasesize)
  HoldsNone-cons P start here later zero p =
      let e : start ≡ start + 0 * erasesize = omega arith in subst (HoldsNone word buf size) e here
  HoldsNone-cons P start here later (suc m) p =
      subst (HoldsNone word buf size) (offset-suc start m) (later m p)

  Scanned-cons :
      (start : ℕ) (r : Detected)
      → HoldsNone word buf size start
      → Scanned (start + erasesize) r
      → Scanned start r
  Scanned-cons start (found a len) here s = (
    suc s.0,
    s.1 ∙ offset-suc start s.0,
    s.2,
    s.3,
    s.4,
    HoldsNone-cons (λ m. m < suc s.0) start here (λ m p. s.5 m (omega arith)),
  )
  Scanned-cons start not_found here s =
      HoldsNone-cons (λ m. start + m * erasesize < size) start here
        (λ m p. s m (omega (arith, offset-suc start m)))
  Scanned-cons start overrun here s = s
  Scanned-cons start running here s = s

  past-end : (start : ℕ) → size ≤ start → Scanned start not_found
  past-end start h m below = absurd (omega arith)

  module _ (wide : (n : ℕ) → n < 2 ^ 32 → size_t word n ≡ n) (small : size < 0x8000_0000)
      (positive : 0 < erasesize) (int : erasesize < 0x8000_0000) (words : erasesize % 4 ≡ 0)
      (whole : size % 4 ≡ 0) where
    step-erasesize : scan_step word erasesize ≡ erasesize
    unfolding scan_step
    step-erasesize =
        let same : u32 erasesize ≡ erasesize = ground (arith, int) in
        let low : ltb erasesize 0x8000_0000 ≡ true = ground (arith, int) in rw (same, low) refl

    scan-Scanned :
        (rounds start : ℕ)
        → start % 4 ≡ 0
        → size - start < rounds
        → Scanned start (scan rounds word buf size erasesize start)
    unfolding scan found_at
    scan-Scanned zero start even enough = absurd (omega arith)
    scan-Scanned (suc rounds) start even enough = elim (Bool-cases (ltb start size)) [
      | inl below ↦
          let lt = ltb→lt start size below in
          let four : ltb size (start + 4) ≡ false = ground (arith, lt, even, whole) in
          let next : size_t word (start + erasesize) ≡ start + erasesize =
            wide (start + erasesize) (omega (arith, lt, small, int)) in
          let offset : u32 start ≡ start = ground (arith, lt, small) in
          elim (first_len-cases word buf size wide small start lt possible_lens
            (omega arith, (omega arith, (omega arith, tt)))) [
              | inr (miss, none') ↦
                  rw (below, four, miss, step-erasesize, next)
                    (Scanned-cons start _ none' (
                      scan-Scanned rounds (start + erasesize) (omega (arith, even, words))
                        (omega (arith, enough, lt, positive))))
              | inl (len, hit, holds, one) ↦
                  rw (below, four, hit, offset)
                    (0, omega arith, lt, holds, one, λ m p. absurd (omega arith))
            ]
      | inr past ↦ rw past (past-end start (ground arith))
    ]

  size_t-word : (word ≡ 4) ⊎ (word ≡ 8) → (n : ℕ) → n < 2 ^ 32 → size_t word n ≡ n
  unfolding size_t
  size_t-word (inl e) n h = rw e (omega (arith, h))
  size_t-word (inr e) n h = rw e (omega (arith, h))

  -- On a machine with words of four or eight bytes, with an image below 2 GiB, an erase size from 1
  -- to 2^31 - 1, and both multiples of 4, the scan ends and reads inside the image. It returns the
  -- first multiple of the erase size below the image's size at which an environment of one of the
  -- three lengths fits the image with a correct checksum, and that length; or -1, when there is none.
  pub uboot_detect_env-Scanned :
      (word ≡ 4) ⊎ (word ≡ 8)
      → size < 0x8000_0000
      → 0 < erasesize
      → erasesize < 0x8000_0000
      → erasesize % 4 ≡ 0
      → size % 4 ≡ 0
      → Scanned 0 (uboot_detect_env word buf size erasesize)
  unfolding uboot_detect_env
  uboot_detect_env-Scanned machine small positive int words whole =
      scan-Scanned (size_t-word machine) small positive int words whole (size + 1) 0 (omega arith)
        (omega arith)
