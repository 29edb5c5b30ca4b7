-- ===== src/Pinmux/Register.antt =====
-- src/reginfo.h: a pin's register and the functions that its values select, by their names.
use ipctool.Base.{
  ℕ, ◌%◌, Bool, true, false, not, List, [], ◌∷◌, ◌++◌, ◌&&◌, ◌||◌, String, ltb, ◌==◌, length,
  if◌then◌else◌,
}
use ipctool.Base.Bytes.{Bytes, codes, equal, starts_with}

-- MUXCTRL(.., address, ..funcs); the 0 behind the functions is the end of the list
pub data Register : Type 0 where
  muxctrl : ℕ → List String → Register

abbrev pub address : Register → ℕ
address (muxctrl a fs) = a

abbrev pub funcs : Register → List String
funcs (muxctrl a fs) = fs

-- What a table is checked for: an address that `mem_reg` can use, which is a word's and not 0, or the
-- mark of a pin without a register; at most 16 functions, which fit the field of four bits; and no
-- two functions of general purpose pins that have the same name.
unfoldable pub addressable : ℕ → Bool
addressable a = a == 0xdeadbeef || a % 4 == 0 && not (a == 0)

unfoldable pub is_gpio : Bytes → Bool
unfolding codes starts_with
is_gpio name = starts_with (codes "GPIO") name

unfoldable pub gpio_names : List String → List Bytes
unfolding is_gpio codes
gpio_names [] = []
gpio_names (f ∷ fs) = if is_gpio (codes f) then codes f ∷ gpio_names fs else gpio_names fs

unfoldable pub all_gpio_names : List Register → List Bytes
unfolding gpio_names
all_gpio_names [] = []
all_gpio_names (muxctrl a fs ∷ rs) = gpio_names fs ++ all_gpio_names rs

unfoldable pub member : Bytes → List Bytes → Bool
unfolding equal
member x [] = false
member x (y ∷ ys) = equal x y || member x ys

unfoldable pub distinct : List Bytes → Bool
unfolding member
distinct [] = true
distinct (x ∷ xs) = not (member x xs) && distinct xs

unfoldable pub each_proper : List Register → Bool
unfolding addressable
each_proper [] = true
each_proper (muxctrl a fs ∷ rs) = addressable a && ltb (length fs) 17 && each_proper rs

unfoldable pub proper : List Register → Bool
unfolding each_proper distinct all_gpio_names
proper rs = each_proper rs && distinct (all_gpio_names rs)
