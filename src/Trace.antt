-- ===== src/Trace.antt =====
-- The packet tracer: trace/trace.c. What libtrace says of a packet is an argument.
pub mod Headers
pub mod Rows
pub mod Packet
pub mod Main
