-- ===== src/Tests.antt =====
-- Runs of the models and of their theorems on concrete inputs.
pub mod SensorRuns
pub mod UbootRuns
pub mod ChipRuns
pub mod MemoryRuns
pub mod PinmuxRuns
pub mod DnsRuns
pub mod YamlRuns
pub mod MtdRuns
