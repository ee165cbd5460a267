-- ===== src/Stub.antt =====
-- src/stub.c, src/stub.h and src/stubinfo.h: the stub that finds the executable behind its own
-- header, and starts it.
pub mod Scan
pub mod Source
pub mod Info
pub mod Client
pub mod Wrapped
pub mod Loader
pub mod Main
