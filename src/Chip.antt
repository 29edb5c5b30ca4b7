-- ===== src/Chip.antt =====
-- src/chipid.c: the chip's identification and the choice of its platform layer.
pub mod Detect
pub mod Name
