-- ===== src/Pinmux/Tables/T31.antt =====
-- src/hal/ingenic_reginfo.h: the registers of `T31_regs`, in its order.
use ipctool.Base.{List, [], ◌∷◌, ◌++◌, ◌≡◌, refl, true}
use ipctool.Pinmux.Register.{Register, muxctrl, proper}

t31_low : List Register
t31_low =
    muxctrl 0x10010000 ("PAPIN" ∷ [])
    ∷ muxctrl 0x10010010 ("PAINT" ∷ [])
    ∷ muxctrl 0x10010014 ("PAINTS" ∷ [])
    ∷ muxctrl 0x10010018 ("PAINTC" ∷ [])
    ∷ muxctrl 0x10010020 ("PAMSK" ∷ [])
    ∷ muxctrl 0x10010024 ("PAMSKS" ∷ [])
    ∷ muxctrl 0x10010028 ("PAMSKC" ∷ [])
    ∷ muxctrl 0x10010030 ("PAPAT1" ∷ [])
    ∷ muxctrl 0x10010034 ("PAPAT1S" ∷ [])
    ∷ muxctrl 0x10010038 ("PAPAT1C" ∷ [])
    ∷ muxctrl 0x10010040 ("PAPAT0" ∷ [])
    ∷ muxctrl 0x10010044 ("PAPAT0S" ∷ [])
    ∷ muxctrl 0x10010048 ("PAPAT0C" ∷ [])
    ∷ muxctrl 0x10010050 ("PAFLG" ∷ [])
    ∷ muxctrl 0x10010058 ("PAFLGC" ∷ [])
    ∷ muxctrl 0x10010070 ("PAGFCFG0" ∷ [])
    ∷ muxctrl 0x10010074 ("PAGFCFG0S" ∷ [])
    ∷ muxctrl 0x10010078 ("PAGFCFG0C" ∷ [])
    ∷ muxctrl 0x10010080 ("PAGFCFG1" ∷ [])
    ∷ muxctrl 0x10010084 ("PAGFCFG1S" ∷ [])
    ∷ muxctrl 0x10010088 ("PAGFCFG1C" ∷ [])
    ∷ muxctrl 0x10010090 ("PAGFCFG2" ∷ [])
    ∷ muxctrl 0x10010094 ("PAGFCFG2S" ∷ [])
    ∷ muxctrl 0x10010098 ("PAGFCFG2C" ∷ [])
    ∷ muxctrl 0x100100A0 ("PAGFCFG3" ∷ [])
    ∷ muxctrl 0x100100A4 ("PAGFCFG3S" ∷ [])
    ∷ muxctrl 0x100100A8 ("PAGFCFG3C" ∷ [])
    ∷ muxctrl 0x10010110 ("PAPUEN" ∷ [])
    ∷ muxctrl 0x10010114 ("PAPUENS" ∷ [])
    ∷ muxctrl 0x10010118 ("PAPUENC" ∷ [])
    ∷ muxctrl 0x10010120 ("PAPDEN" ∷ [])
    ∷ muxctrl 0x10010124 ("PAPDENS" ∷ [])
    ∷ muxctrl 0x10010128 ("PAPDENC" ∷ [])
    ∷ muxctrl 0x10010130 ("PAPDRVL" ∷ [])
    ∷ muxctrl 0x10010134 ("PAPDRVLS" ∷ [])
    ∷ muxctrl 0x10010138 ("PAPDRVLC" ∷ [])
    ∷ muxctrl 0x10010140 ("PAPDRVH" ∷ [])
    ∷ muxctrl 0x10010144 ("PAPDRVHS" ∷ [])
    ∷ muxctrl 0x10010148 ("PAPDRVHC" ∷ [])
    ∷ muxctrl 0x10010150 ("PAPSLW" ∷ [])
    ∷ muxctrl 0x10010154 ("PAPSLWS" ∷ [])
    ∷ muxctrl 0x10010158 ("PAPSLWC" ∷ [])
    ∷ muxctrl 0x10010160 ("PAPSMT" ∷ [])
    ∷ muxctrl 0x10010164 ("PAPSMTS" ∷ [])
    ∷ muxctrl 0x10010168 ("PAPSMTC" ∷ [])
    ∷ muxctrl 0x10011000 ("PBPIN" ∷ [])
    ∷ muxctrl 0x10011010 ("PBINT" ∷ [])
    ∷ muxctrl 0x10011014 ("PBINTS" ∷ [])
    ∷ muxctrl 0x10011018 ("PBINTC" ∷ [])
    ∷ muxctrl 0x10011020 ("PBMSK" ∷ [])
    ∷ muxctrl 0x10011024 ("PBMSKS" ∷ [])
    ∷ muxctrl 0x10011028 ("PBMSKC" ∷ [])
    ∷ muxctrl 0x10011030 ("PBPAT1" ∷ [])
    ∷ muxctrl 0x10011034 ("PBPAT1S" ∷ [])
    ∷ muxctrl 0x10011038 ("PBPAT1C" ∷ [])
    ∷ muxctrl 0x10011040 ("PBPAT0" ∷ [])
    ∷ muxctrl 0x10011044 ("PBPAT0S" ∷ [])
    ∷ muxctrl 0x10011048 ("PBPAT0C" ∷ [])
    ∷ muxctrl 0x10011050 ("PBFLG" ∷ [])
    ∷ muxctrl 0x10011058 ("PBFLGC" ∷ [])
    ∷ muxctrl 0x10011070 ("PBGFCFG0" ∷ [])
    ∷ muxctrl 0x10011074 ("PBGFCFG0S" ∷ [])
    ∷ muxctrl 0x10011078 ("PBGFCFG0C" ∷ [])
    ∷ muxctrl 0x10011080 ("PBGFCFG1" ∷ [])
    ∷ muxctrl 0x10011084 ("PBGFCFG1S" ∷ [])
    ∷ muxctrl 0x10011088 ("PBGFCFG1C" ∷ [])
    ∷ muxctrl 0x10011090 ("PBGFCFG2" ∷ [])
    ∷ muxctrl 0x10011094 ("PBGFCFG2S" ∷ [])
    ∷ muxctrl 0x10011098 ("PBGFCFG2C" ∷ [])
    ∷ muxctrl 0x100110A0 ("PBGFCFG3" ∷ [])
    ∷ muxctrl 0x100110A4 ("PBGFCFG3S" ∷ [])
    ∷ muxctrl 0x100110A8 ("PBGFCFG3C" ∷ [])
    ∷ []

t31_high : List Register
t31_high =
    muxctrl 0x10011110 ("PBPUEN" ∷ [])
    ∷ muxctrl 0x10011114 ("PBPUENS" ∷ [])
    ∷ muxctrl 0x10011118 ("PBPUENC" ∷ [])
    ∷ muxctrl 0x10011120 ("PBPDEN" ∷ [])
    ∷ muxctrl 0x10011124 ("PBPDENS" ∷ [])
    ∷ muxctrl 0x10011128 ("PBPDENC" ∷ [])
    ∷ muxctrl 0x10011130 ("PBPDRVL" ∷ [])
    ∷ muxctrl 0x10011134 ("PBDRVLS" ∷ [])
    ∷ muxctrl 0x10011138 ("PBDRVLC" ∷ [])
    ∷ muxctrl 0x10011140 ("PBDRVH" ∷ [])
    ∷ muxctrl 0x10011144 ("PBDRVHS" ∷ [])
    ∷ muxctrl 0x10011148 ("PBDRVHC" ∷ [])
    ∷ muxctrl 0x10011150 ("PBSLW" ∷ [])
    ∷ muxctrl 0x10011154 ("PBSLWS" ∷ [])
    ∷ muxctrl 0x10011158 ("PBSLWC" ∷ [])
    ∷ muxctrl 0x10011160 ("PBSMT" ∷ [])
    ∷ muxctrl 0x10011164 ("PBSMTS" ∷ [])
    ∷ muxctrl 0x10011168 ("PBSMTC" ∷ [])
    ∷ muxctrl 0x10012000 ("PCPIN" ∷ [])
    ∷ muxctrl 0x10012010 ("PCINT" ∷ [])
    ∷ muxctrl 0x10012014 ("PCINTS" ∷ [])
    ∷ muxctrl 0x10012018 ("PCINTC" ∷ [])
    ∷ muxctrl 0x10012020 ("PCMSK" ∷ [])
    ∷ muxctrl 0x10012024 ("PCMSKS" ∷ [])
    ∷ muxctrl 0x10012028 ("PCMSKC" ∷ [])
    ∷ muxctrl 0x10012030 ("PCPAT1" ∷ [])
    ∷ muxctrl 0x10012034 ("PCPAT1S" ∷ [])
    ∷ muxctrl 0x10012038 ("PCPAT1C" ∷ [])
    ∷ muxctrl 0x10012040 ("PCPAT0" ∷ [])
    ∷ muxctrl 0x10012044 ("PCPAT0S" ∷ [])
    ∷ muxctrl 0x10012048 ("PCPAT0C" ∷ [])
    ∷ muxctrl 0x10012050 ("PCFLG" ∷ [])
    ∷ muxctrl 0x10012058 ("PCFLGC" ∷ [])
    ∷ muxctrl 0x10012070 ("PCGFCFG0" ∷ [])
    ∷ muxctrl 0x10012074 ("PCGFCFG0S" ∷ [])
    ∷ muxctrl 0x10012078 ("PCGFCFG0C" ∷ [])
    ∷ muxctrl 0x10012080 ("PCGFCFG1" ∷ [])
    ∷ muxctrl 0x10012084 ("PCGFCFG1S" ∷ [])
    ∷ muxctrl 0x10012088 ("PCGFCFG1C" ∷ [])
    ∷ muxctrl 0x10012090 ("PCGFCFG2" ∷ [])
    ∷ muxctrl 0x10012094 ("PCGFCFG2S" ∷ [])
    ∷ muxctrl 0x10012098 ("PCGFCFG2C" ∷ [])
    ∷ muxctrl 0x100120A0 ("PCGFCFG3" ∷ [])
    ∷ muxctrl 0x100120A4 ("PCGFCFG3S" ∷ [])
    ∷ muxctrl 0x100120A8 ("PCGFCFG3C" ∷ [])
    ∷ muxctrl 0x10012110 ("PCPUEN" ∷ [])
    ∷ muxctrl 0x10012114 ("PCPUENS" ∷ [])
    ∷ muxctrl 0x10012118 ("PCPUENC" ∷ [])
    ∷ muxctrl 0x10012120 ("PCPDEN" ∷ [])
    ∷ muxctrl 0x10012124 ("PCPDENS" ∷ [])
    ∷ muxctrl 0x10012128 ("PCPDENC" ∷ [])
    ∷ muxctrl 0x10012130 ("PCDRVL" ∷ [])
    ∷ muxctrl 0x10012134 ("PCDRVLS" ∷ [])
    ∷ muxctrl 0x10012138 ("PCDRVLC" ∷ [])
    ∷ muxctrl 0x10012140 ("PCDRVH" ∷ [])
    ∷ muxctrl 0x10012144 ("PCDRVHS" ∷ [])
    ∷ muxctrl 0x10012148 ("PCDRVHC" ∷ [])
    ∷ muxctrl 0x10012150 ("PCSLW" ∷ [])
    ∷ muxctrl 0x10012154 ("PCSLWS" ∷ [])
    ∷ muxctrl 0x10012158 ("PCSLWC" ∷ [])
    ∷ muxctrl 0x10012160 ("PCSMT" ∷ [])
    ∷ muxctrl 0x10012164 ("PCSMTS" ∷ [])
    ∷ muxctrl 0x10012168 ("PCSMTC" ∷ [])
    ∷ muxctrl 0x10017014 ("PZINTS" ∷ [])
    ∷ muxctrl 0x10017018 ("PZINTC" ∷ [])
    ∷ muxctrl 0x10017024 ("PZMSKS" ∷ [])
    ∷ muxctrl 0x10017028 ("PZMSKC" ∷ [])
    ∷ muxctrl 0x10017034 ("PZPAT1S" ∷ [])
    ∷ muxctrl 0x10017038 ("PZPAT1C" ∷ [])
    ∷ muxctrl 0x10017044 ("PZPAT0S" ∷ [])
    ∷ muxctrl 0x10017048 ("PZPAT0C" ∷ [])
    ∷ muxctrl 0x100170F0 ("PZGID2LD" ∷ [])
    ∷ []

pub t31_regs : List Register
unfolding t31_low t31_high
t31_regs = t31_low ++ t31_high

pub t31_regs-proper : proper t31_regs ≡ true
unfolding t31_regs proper
t31_regs-proper = refl
