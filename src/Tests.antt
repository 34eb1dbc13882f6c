-- ===== src/Tests.antt =====
-- Runs on concrete data, and the theorems at concrete inputs.
mod Sim
mod CodecTests
mod NetworkTests
mod PoolTests
mod DataTests
mod ProgramTests
mod SessionTests
mod Whole
mod OneClient
mod RunTests
mod SequenceTests
mod ClientTests
