-- ===== src/Tests.antt =====
-- The theorems applied at concrete inputs of the programs.
mod Collectd
mod Packets
mod Loop
mod Options
mod Tools
mod Otg
mod Tracing
mod Monitors
