-- ===== src/Tests.antt =====
-- The theorems at concrete inputs.
mod Fragments
mod Sections
mod Threads
mod Messages
mod Cartridges
mod Saves
mod Interpreter
mod Clocks
mod Enabling
mod Devices
