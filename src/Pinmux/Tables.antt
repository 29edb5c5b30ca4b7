-- ===== src/Pinmux/Tables.antt =====
-- The register tables of src/reginfo.c, src/hal/sstar_reginfo.h and src/hal/ingenic_reginfo.h.
pub mod Cv100
pub mod Av100
pub mod Cv200
pub mod Ev20x
pub mod Av200
pub mod Cv300
pub mod Cv500
pub mod Dv300
pub mod Ev200
pub mod Ev300
pub mod S18ev300
pub mod Dv200
pub mod Dv100
pub mod Rcv100
pub mod Cv610
pub mod Dv500
pub mod I6b
pub mod I6c
pub mod I6e
pub mod T31
