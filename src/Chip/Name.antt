-- ===== src/Chip/Name.antt =====
-- src/chipid.c: `getchipname`, `getchipfamily` and `getchipvendor`.
pub mod Cached
use ipctool.Base.{
  ℕ, ◌+◌, ◌-◌, Bool, true, false, Option, none, some, List, [], ◌∷◌, ◌++◌, map, ◌==◌, ◌&&◌, leb,
  if◌then◌else◌, length, take, String,
}
use ipctool.Base.Bytes.{Bytes, codes, equal, starts_with}
use ipctool.Chip.Detect.{CpuLayer, Ident, Arch, hw_detect_system}

-- tolower on ASCII
pub to_lower : ℕ → ℕ
to_lower c = if leb b'A' c && leb c b'Z' then c + 32 else c

-- The text at `sysid` that detection puts in front of the chip's name.
pub vendor_prefix : Bytes → Bytes
vendor_prefix manufacturer =
    if equal manufacturer (codes "HiSilicon")
    then codes "hi"
    else if equal manufacturer (codes "Goke")
    then codes "gk"
    else []

-- lsnprintf into what is left of the 255 bytes
pub new_sysid : Bytes → Bytes → Bytes
unfolding to_lower vendor_prefix
new_sysid manufacturer name =
    let front = vendor_prefix manufacturer in
    front ++ map to_lower (take (255 - length front - 1) name)

-- `unknown` is a family that is named by the chip itself, `by_name` HISI_V4's.
pub data Family : Type 0 where
  fixed : String → Family
  by_name unknown : Family

pub families : List (ℕ × Family)
families =
    (0x35180100, fixed "hi3516cv100")
    ∷ (0x3516A100, fixed "hi3516av100")
    ∷ (0x3518E200, fixed "hi3516cv200")
    ∷ (0x35190101, fixed "hi3519v100")
    ∷ (0x3516C300, fixed "hi3516cv300")
    ∷ (0x3516C500, fixed "hi3516cv500")
    ∷ (0x3516E300, by_name)
    ∷ (0xC2, fixed "infinity3")
    ∷ (0xED, fixed "infinity5")
    ∷ (0xEF, fixed "infinity6")
    ∷ (0xF2, fixed "infinity6b0")
    ∷ (0xF9, fixed "infinity6c")
    ∷ (0xF1, fixed "infinity6e")
    ∷ (0x10, fixed "t10")
    ∷ (0x20, fixed "t20")
    ∷ (0x21, fixed "t21")
    ∷ (0x23, fixed "t23")
    ∷ (0x30, fixed "t30")
    ∷ (0x31, fixed "t31")
    ∷ (0x40, fixed "t40")
    ∷ (0x41, fixed "t41")
    ∷ (0x1106, fixed "rv1106")
    ∷ []

pub find_family : ℕ → List (ℕ × Family) → Family
find_family generation [] = unknown
find_family generation ((g, f) ∷ rest) = if g == generation then f else find_family generation rest

-- A char pointer that the program returns, or an access through NULL.
pub data CString : Type 0 where
  text : Bytes → CString
  null crash : CString

pub c_string : Option Bytes → CString
c_string none = null
c_string (some t) = text t

-- if (*chip_name == 'g') ..
pub v4_family : Option Bytes → CString
v4_family none = crash
v4_family (some name) =
    if starts_with (b'g' ∷ []) name then text (codes "gk7205v200") else text (codes "hi3516ev200")

pub family_name : Family → Option Bytes → CString
unfolding v4_family c_string
family_name (fixed s) name = text (codes s)
family_name by_name name = v4_family name
family_name unknown name = c_string name

module _ {S : Type 0} (layer : CpuLayer S) (arch : Arch) where
  -- Detection, by a chip that has no name yet.
  pub detect_name : Ident S → Option Bytes × Ident S
  unfolding new_sysid
  detect_name c =
      let r =
        hw_detect_system layer arch
          (record c { system = layer.setup_hal_fallback c.system; hal = none }) in
      let name = new_sysid r.1.chip_manufacturer r.1.chip_name in
      if r.0 then (some name, record (r.1) { sysid = name }) else (none, r.1)

  -- By the text in `sysid`: if (*sysid) return sysid;
  pub known_or_detect : Bytes → Ident S → Option Bytes × Ident S
  unfolding detect_name
  known_or_detect [] c = detect_name c
  known_or_detect (b ∷ bs) c = (some (b ∷ bs), c)

  -- `none` is NULL.
  unfoldable pub getchipname : Ident S → Option Bytes × Ident S
  unfolding known_or_detect
  getchipname c = known_or_detect c.sysid c

  pub getchipfamily : Ident S → CString × Ident S
  unfolding getchipname families find_family family_name
  getchipfamily c =
      let r = getchipname c in (family_name (find_family r.1.chip_generation families) r.0, r.1)

  pub getchipvendor : Ident S → Bytes × Ident S
  unfolding getchipname
  getchipvendor c = let r = getchipname c in (r.1.chip_manufacturer, r.1)
