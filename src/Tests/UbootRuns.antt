-- ===== src/Tests/UbootRuns.antt =====
-- The U-Boot environment (src/uboot.c) on a small image.
use ipctool.Base.{inl, ℕ, ◌≤◌, false, some, none, List, [], ◌∷◌, ◌++◌, ◌≡◌, refl, arith}
use ipctool.Base.Bytes.{Bytes, starts_with, equal}
use ipctool.Uboot.Detect.{uboot_detect_env}
use ipctool.Uboot.Detect.Scan.{Scanned, uboot_detect_env-Scanned}
use ipctool.Uboot.Env.{
  value, missing, Uboot, uboot_env_get_param, get_walk, fop_ram, done, uboot_setenv_cb,
  set_env_param_ram, split_eq, assign,
}
use ipctool.Uboot.Env.Text.{encode}
use ipctool.Uboot.Env.Get.{lookup, get_walk-encode}
use ipctool.Uboot.Env.Spec.{rebuilt, update, change, follow}
use ipctool.Uboot.Env.Set.{need}
use ipctool.Uboot.Env.Size.{stored}
use ipctool.Uboot.Env.Setenv.{
  Loaded, uboot_setenv_cb-update, set_env_param_ram-get, set_env_param_ram-loses,
}

abbrev erased : ℕ → ℕ
erased a = 0xff

uboot_detect_env-Scanned_example :
    Scanned 4 erased 0x100 0x40 0 (uboot_detect_env 4 erased 0x100 0x40)
uboot_detect_env-Scanned_example =
    uboot_detect_env-Scanned 4 erased 0x100 0x40 (inl refl) (omega arith) (omega arith)
      (omega arith) refl refl

abbrev key : Bytes
key = b'a' ∷ []

abbrev newvalue : Bytes
newvalue = b'3' ∷ b'3' ∷ []

-- ab=1 and c=2
abbrev es : List Bytes
es = (b'a' ∷ b'b' ∷ b'=' ∷ b'1' ∷ []) ∷ (b'c' ∷ b'=' ∷ b'2' ∷ []) ∷ []

-- a=33 and c=2
abbrev es_set : List Bytes
es_set = (b'a' ∷ b'=' ∷ b'3' ∷ b'3' ∷ []) ∷ (b'c' ∷ b'=' ∷ b'2' ∷ []) ∷ []

abbrev pad : Bytes
pad = 0 ∷ 0 ∷ 0 ∷ 0 ∷ 0 ∷ 0 ∷ []

abbrev sum : Bytes
sum = 1 ∷ 2 ∷ 3 ∷ 4 ∷ []

abbrev loaded_uboot : Uboot
loaded_uboot = record { env_len = 20; uenv = some (sum ++ encode es pad) }

loaded_uboot-Loaded : Loaded loaded_uboot sum es pad 16
loaded_uboot-Loaded = record {
  uenv_is = refl;
  sum_is = refl;
  text_is = refl;
  len_is = refl;
  entries = ((tt, λ e. cc), ((tt, λ e. cc), tt));
}

update-es : update key newvalue fop_ram [] es false [] ≡ rebuilt es_set
unfolding update change follow starts_with split_eq assign equal
update-es = refl

room : need key newvalue fop_ram pad 16 es ≤ 16
unfolding assign
room = omega arith

get_walk-encode_example :
    get_walk 3 (b'c' ∷ b'=' ∷ []) (encode es pad) ≡ lookup (b'c' ∷ b'=' ∷ []) es
get_walk-encode_example =
    get_walk-encode 3 (b'c' ∷ b'=' ∷ []) es pad tt ((tt, λ e. cc), ((tt, λ e. cc), tt))
      (omega arith)

uboot_setenv_cb-update_example :
    uboot_setenv_cb 4 loaded_uboot none key newvalue fop_ram
    ≡ stored 4 loaded_uboot fop_ram sum es pad 16 (update key newvalue fop_ram [] es false [])
uboot_setenv_cb-update_example =
    uboot_setenv_cb-update 4 loaded_uboot sum es pad 16 loaded_uboot-Loaded key newvalue fop_ram
      room none

set_env_param_ram-get_example :
    (u' : Uboot) × (set_env_param_ram 4 loaded_uboot key newvalue ≡ done u' none)
    × (uboot_env_get_param u' key ≡ value newvalue)
set_env_param_ram-get_example =
    set_env_param_ram-get 4 loaded_uboot sum es pad 16 loaded_uboot-Loaded key newvalue room es_set
      update-es tt tt (λ e. cc) (omega arith)

set_env_param_ram-loses_example :
    (u' : Uboot) × (set_env_param_ram 4 loaded_uboot key newvalue ≡ done u' none)
    × (uboot_env_get_param u' (key ++ b'b' ∷ []) ≡ missing)
set_env_param_ram-loses_example =
    set_env_param_ram-loses 4 loaded_uboot sum es pad 16 loaded_uboot-Loaded key newvalue room
      es_set update-es tt tt (λ e. cc) b'b' [] (λ e. cc) tt (omega arith)
