-- ===== src/Mtd/Order.antt =====
-- The order in which the partitions are visited.
use mathlib.Core.List.{Perm}
use mathlib.Core.List.Perm
use ipctool.Base.{Bool, true, false, List, [], ◌∷◌, if◌then◌else◌}
use ipctool.Mtd.{MtdEntry, put_in_order}

moved : (b c d : MtdEntry) (rest : List MtdEntry) → Perm (b ∷ c ∷ d ∷ rest) (d ∷ b ∷ c ∷ rest)
moved b c d rest = Perm.trans (Perm.cons b (Perm.swap d c rest)) (Perm.swap d b (c ∷ rest))

if-Perm :
    (t : Bool) (xs ys zs : List MtdEntry) → Perm xs ys → Perm xs zs → Perm xs (if t then ys else zs)
if-Perm true xs ys zs h k = h
if-Perm false xs ys zs h k = k

-- Whatever the partitions are, the order in which they are visited is a permutation of them: none
-- is lost or visited twice.
pub put_in_order-Perm : (entries : List MtdEntry) → Perm entries (put_in_order entries)
unfolding put_in_order
put_in_order-Perm [] = Perm.rfl
put_in_order-Perm (a ∷ []) = Perm.rfl
put_in_order-Perm (a ∷ b ∷ []) = Perm.rfl
put_in_order-Perm (a ∷ b ∷ c ∷ []) = Perm.rfl
put_in_order-Perm (a ∷ b ∷ c ∷ d ∷ []) = Perm.rfl
put_in_order-Perm (a ∷ b ∷ c ∷ d ∷ e ∷ rest) =
    if-Perm _ _ _ _ (Perm.cons a (moved b c d (e ∷ rest))) Perm.rfl
