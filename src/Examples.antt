-- ===== src/Examples.antt =====
-- Runs of the model on inputs of the crate's own tests, and the theorems at concrete inputs.
mod Writers
mod Runs
mod Codec
mod Records
mod Trees
mod Types
mod Prefixes
mod Texts
mod Generated
mod Messages
mod Escapes
mod Configs
mod Maps
mod Narrow
