-- ===== src/Tests.antt =====
-- Runs of the model of src/*.c at concrete inputs, and each result at an input that meets its
-- hypotheses.
mod Sample
mod LongRead
mod Elf
mod Coff
mod Scan
mod Dpmi
mod Ministub
mod Server
mod Host
mod Client
mod Init
mod Coded
mod Main
mod Assembly
mod Launch
mod Link
