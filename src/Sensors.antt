-- ===== src/Sensors.antt =====
-- src/sensors.c: image sensor detection over I2C and SPI.
pub mod Bus
pub mod Sony
pub mod Smartsens
pub mod Switch
pub mod Soi
pub mod Omni
pub mod Superpix
pub mod Others
pub mod Probe
pub mod Verdict
pub mod Naming
