-- ===== src/Base/Format.antt =====
-- The conversions of printf that the program uses on numbers, as bytes.
use Prim.Native.Nat.{ℕ, zero, suc, ◌+◌, ◌-◌, ◌/◌, ◌%◌}
use mathlib.Core.Bool.{◌&&◌}
use mathlib.Core.List.{[], ◌∷◌}
use ipctool.Base.Bytes.{Bytes}
use ipctool.Base.Tests.{ltb, ◌==◌, if◌then◌else◌}

digit : ℕ → ℕ
digit d = if ltb d 10 then d + b'0' else d - 10 + b'a'

-- The digits of `n` to a base, at least `width` of them, in front of `rest`; `fuel` bounds their
-- number.
unfoldable pub number : ℕ → ℕ → ℕ → ℕ → Bytes → Bytes
unfolding digit
number base zero width n rest = rest
number base (suc fuel) width n rest =
    let more = number base fuel (width - 1) (n / base) (digit (n % base) ∷ rest) in
    if n == 0 && width == 0 then rest else more

-- %x, %.2x and %04x on 32 bits (`width` 1, 2 and 4)
unfoldable pub hex : ℕ → ℕ → Bytes
unfolding number
hex width n = number 16 8 width n []

-- %u on 64 bits
unfoldable pub decimal : ℕ → Bytes
unfolding number
decimal n = number 10 20 1 n []
