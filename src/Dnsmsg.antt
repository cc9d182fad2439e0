-- ===== src/Dnsmsg.antt =====
-- internal/dnsmsg/dnsmsg.go: the part of the DNS wire format that the balancer reads and writes. A
-- byte is a number below 256, a message or a name a list of bytes; the bit operations on the flags
-- are written with division and remainder.
pub mod Header
mod Bytes
pub mod Names
pub mod Codes
pub mod Message
pub mod Demo
mod Examples
