-- ===== src/Wattsup.antt =====
-- wattsup/wattsup.c, the controller of a Watts Up? power meter, by its parts.
pub mod Packet
pub mod State
pub mod Command
pub mod Parse
pub mod Wire
pub mod Device
pub mod Print
pub mod Fields
pub mod Report
pub mod ReadData
pub mod Options
pub mod Show
pub mod Store
pub mod Open
pub mod Main
