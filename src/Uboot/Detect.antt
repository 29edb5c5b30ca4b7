-- ===== src/Uboot/Detect.antt =====
-- src/uboot.c: `uboot_detect_env`. The mapped device is a function from offsets to bytes.
pub mod Scan
use ipctool.Base.{
  ℕ, zero, suc, ◌+◌, ◌-◌, ◌*◌, ◌<◌, ◌≤◌, Bool, true, false, ◌&&◌, List, [], ◌∷◌, Option, none, some,
  ◌==◌, ltb, if◌then◌else◌, u32, ◌%◌, ◌^◌,
}
use ipctool.Base.Bytes.{Bytes}
use ipctool.Uboot.Crc.{crc32, le_word}

-- `n` bytes from an offset.
unfoldable pub slice : (ℕ → ℕ) → ℕ → ℕ → Bytes
slice buf off zero = []
slice buf off (suc n) = buf off ∷ slice buf (off + 1) n

abbrev pub crc_sz : ℕ
crc_sz = 4

-- static size_t env_len, before a detection
abbrev pub initial_env_len : ℕ
initial_env_len = 0x10000

abbrev pub possible_lens : List ℕ
possible_lens = 0x10000 ∷ 0x40000 ∷ 0x20000 ∷ []

-- A `size_t`, of `word` bytes as the accumulator of the checksum.
pub size_t : ℕ → ℕ → ℕ
size_t word n = n % 2 ^ (8 * word)

-- int scan_step = erasesize, as it is added to a `size_t`
pub scan_step : ℕ → ℕ → ℕ
scan_step word erasesize =
    let n = u32 erasesize in if ltb n 0x8000_0000 then n else n + (2 ^ (8 * word) - 2 ^ 32)

-- The test of one length at one offset; `none` is a read outside the image.
pub env_at : ℕ → (ℕ → ℕ) → ℕ → ℕ → ℕ → Option Bool
unfolding size_t
env_at word buf size baddr len =
    if ltb size (size_t word (len + baddr))
    then some false
    else if ltb size (len + baddr)
    then none
    else some
        (crc32 word (slice buf (baddr + crc_sz) (len - crc_sz)) 0 == le_word (slice buf baddr 4))

-- The inner loop: the length that `env_len` is set to, if there is one; `none` is a read outside.
pub first_len : ℕ → (ℕ → ℕ) → ℕ → ℕ → List ℕ → Option (Option ℕ)
unfolding env_at
first_len word buf size baddr [] = some none
first_len word buf size baddr (len ∷ lens) = elim (env_at word buf size baddr len) [
  | none ↦ none
  | some b ↦ if b then some (some len) else first_len word buf size baddr lens
]

-- `found` returns the offset, the bits of an `int`, and has set `env_len`; `not_found` is -1;
-- `overrun` is a read outside the image; `running` is a scan that has not ended when its rounds are
-- used up.
pub data Detected : Type 0 where
  found : ℕ → ℕ → Detected
  not_found overrun running : Detected

pub found_at : Option (Option ℕ) → ℕ → Detected → Detected
found_at none baddr rest = overrun
found_at (some none) baddr rest = rest
found_at (some (some len)) baddr rest = found (u32 baddr) len

pub scan : ℕ → ℕ → (ℕ → ℕ) → ℕ → ℕ → ℕ → Detected
unfolding found_at first_len size_t
scan zero word buf size erasesize baddr = running
scan (suc rounds) word buf size erasesize baddr =
    let rest =
      scan rounds word buf size erasesize (size_t word (baddr + scan_step word erasesize)) in
    if ltb baddr size
    then (if ltb size (baddr + 4)
        then overrun
        else found_at (first_len word buf size baddr possible_lens) baddr rest)
    else not_found

-- With a step from 1 to the largest `int`, `size + 1` rounds are enough for an image below 2 GiB.
pub uboot_detect_env : ℕ → (ℕ → ℕ) → ℕ → ℕ → Detected
unfolding scan
uboot_detect_env word buf size erasesize = scan (size + 1) word buf size erasesize 0
