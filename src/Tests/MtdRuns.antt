-- ===== src/Tests/MtdRuns.antt =====
-- Flash writes (src/mtd.c) on a flash that keeps the last write and reads it back.
use ipctool.Base.{ℕ, true, false, some, none, List, [], ◌∷◌, ◌≡◌, refl, length}
use ipctool.Base.Bytes.{Bytes, codes, equal}
use mathlib.Core.List.{Perm}
use ipctool.Mtd.{FlashCalls, Flash, MtdEntry, mtd_write, put_in_order}
use ipctool.Mtd.Write.{Verified, mtd_write-Verified}
use ipctool.Mtd.Order.{put_in_order-Perm}

abbrev keeping : FlashCalls Bytes
keeping = record {
  open_mtd = λ s n. (3, s);
  close = λ s fd. s;
  mem_unlock = λ s fd offset size. s;
  mem_erase = λ s fd offset size. (true, []);
  lseek = λ s fd offset. s;
  write = λ s fd bytes. (length bytes, bytes);
  read = λ s fd size. (some s, s);
  is_xm_board = λ s. (false, s);
  xm_flash_init = λ s fd. (false, s);
  xm_unlock_and_erase = λ s fd offset size. (false, s);
  mem_get_info = λ s n. (none, s);
}

abbrev blank : Flash Bytes
blank = record { system = []; xm_warning = false }

written_true : (mtd_write keeping 1 0x40000 0x10000 (codes "env") blank).0 ≡ true
unfolding mtd_write codes equal
written_true = refl

mtd_write-Verified_example :
    Verified keeping 0x40000
      (codes "env")
      1
      0x10000
      blank
      (mtd_write keeping 1 0x40000 0x10000 (codes "env") blank).1.system
mtd_write-Verified_example =
    mtd_write-Verified keeping 0x40000 (codes "env") 1 0x10000 blank written_true

abbrev part : ℕ → Bytes → MtdEntry
part n name = record { number = n; part_name = name; info = some (0x10000, 0x10000, 3) }

abbrev anjoy : List MtdEntry
anjoy =
    part 0 (codes "BOOT")
    ∷ part 1 (codes "KERNEL")
    ∷ part 2 (codes "SYSTEM")
    ∷ part 3 (codes "UBOOT")
    ∷ part 4 (codes "DATA")
    ∷ []

put_in_order-Perm_example : Perm anjoy (put_in_order anjoy)
put_in_order-Perm_example = put_in_order-Perm anjoy
