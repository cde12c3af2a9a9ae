-- ===== src/Otg.antt =====
-- The traffic generator and receiver of otg2: packets, UDP ports, addresses, clocks, generators and
-- streams (otg2/lib).
pub mod Packet
pub mod Udp
pub mod Address
pub mod Clock
pub mod Generator
pub mod Stream
pub mod Application
pub mod Socket
pub mod Component
