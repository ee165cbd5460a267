-- ===== src/Util.antt =====
-- src/util.c and src/util.h.
pub mod FarMem
pub mod LongRead
pub mod Init
pub mod Transfer
pub mod FilePart
pub mod Block
pub mod Assembly
pub mod Lcall
pub mod RegsBlock
pub mod Int2f
