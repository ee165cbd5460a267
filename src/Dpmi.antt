-- ===== src/Dpmi.antt =====
-- The wrappers of src/dpmi.c, each the list of its instructions.
pub mod Descriptors
pub mod Memory
pub mod Vectors
pub mod Calls
pub mod Results
pub mod SegmentBase
