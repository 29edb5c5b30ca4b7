-- ===== src/Uboot.antt =====
-- src/uboot.c: the U-Boot environment in flash. `Crc` is its checksum, `Detect` finds the
-- environment in an image, `Env` reads and sets variables.
pub mod Crc
pub mod Detect
pub mod Env
