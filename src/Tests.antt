-- ===== src/Tests.antt =====
-- The properties at concrete inputs, and runs of the definitions.
pub mod Words
pub mod Client
pub mod Dump
pub mod ProcStat
pub mod Program
pub mod Http
pub mod Live
pub mod ClientHttp
pub mod Start
pub mod Matching
pub mod Reports
pub mod Files
pub mod Policy
pub mod Inputer
pub mod Capture
pub mod Packets
pub mod Messages
mod Hex
mod Config
mod Regex
