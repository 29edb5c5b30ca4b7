-- ===== src/Uboot/Crc.antt =====
-- src/uboot.c: `crc32_for_byte`, `init_tables` and `crc32`. `word` is sizeof(accum_t), 4 or 8; the
-- machine is little-endian. The static tables are functions of their index.
use ipctool.Base.{
  ℕ, zero, suc, ◌+◌, ◌*◌, ◌/◌, bit_and, bit_xor, [], ◌∷◌, ◌==◌, ◌>>>◌, u8, if◌then◌else◌, ◌≡◌, refl,
  take, drop, length,
}
use ipctool.Base.Bytes.{Bytes, codes}

byte_rounds : ℕ → ℕ → ℕ
byte_rounds zero r = r
byte_rounds (suc j) r =
    byte_rounds j (bit_xor (if bit_and r 1 == 1 then 0 else 0xEDB88320) (r >>> 1))

-- table[r]
unfoldable pub crc32_for_byte : ℕ → ℕ
unfolding byte_rounds
crc32_for_byte r = bit_xor (byte_rounds 8 r) 0xFF000000

-- table[(uint8_t)x] ^ w >> 8
abbrev step : ℕ → ℕ → ℕ
step x w = bit_xor (crc32_for_byte (u8 x)) (w >>> 8)

-- The loop over j in `init_tables`, with `left` rounds to go.
unfoldable pub wtable_loop : ℕ → ℕ → ℕ → ℕ → ℕ → ℕ
unfolding crc32_for_byte
wtable_loop zero j k i w = w
wtable_loop (suc left) j k i w =
    wtable_loop left (j + 1) k i (step (if j == k then bit_xor w i else w) w)

-- wtable[(k << 8) + i]
unfoldable pub wtable : ℕ → ℕ → ℕ → ℕ
unfolding wtable_loop
wtable word k i =
    bit_xor (wtable_loop word 0 k i 0) (if k == 0 then 0 else wtable_loop word 0 0 0 0)

-- A byte of the tail.
unfoldable pub crc_byte : ℕ → ℕ → ℕ
unfolding crc32_for_byte
crc_byte crc b = bit_xor (crc32_for_byte (bit_xor (u8 crc) b)) (crc >>> 8)

unfoldable pub crc_bytes : ℕ → Bytes → ℕ
unfolding crc_byte
crc_bytes crc [] = crc
crc_bytes crc (b ∷ bs) = crc_bytes (crc_byte crc b) bs

-- *(accum_t *)data
unfoldable pub le_word : Bytes → ℕ
le_word [] = 0
le_word (b ∷ bs) = b + 256 * le_word bs

-- The loop over the bytes of a word `a`, shifted down by the rounds done.
unfoldable pub word_loop : ℕ → ℕ → ℕ → ℕ → ℕ → ℕ
unfolding wtable
word_loop word zero j a crc = crc
word_loop word (suc left) j a crc =
    word_loop word left (j + 1) (a >>> 8) (bit_xor crc (wtable word j (u8 a)))

-- The words, then the rest of the bytes.
unfoldable pub crc_words : ℕ → ℕ → ℕ → Bytes → ℕ
unfolding word_loop le_word crc_bytes
crc_words word zero crc data' = crc_bytes crc data'
crc_words word (suc n) crc data' =
    crc_words word n (word_loop word word 0 (bit_xor crc (le_word (take word data'))) 0)
      (drop word data')

-- crc32(data, n_bytes, &crc)
unfoldable pub crc32 : ℕ → Bytes → ℕ → ℕ
unfolding crc_words
crc32 word data' crc = crc_words word (length data' / word) crc data'

-- The check value of CRC-32, by both word sizes and by bytes.
check_value :
    (crc32 8 (codes "123456789") 0 ≡ 0xCBF43926)
    × (crc32 4 (codes "123456789") 0 ≡ 0xCBF43926)
    × (crc_bytes 0 (codes "123456789") ≡ 0xCBF43926)
unfolding crc32 codes
check_value = (refl, refl, refl)
