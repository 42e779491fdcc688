-- ===== src/MipsInterp.antt =====
-- librecomp/src/mips_interp.cpp: the interpreter of R4300i code that no recompiled function covers.
pub mod Words
pub mod Opcodes
pub mod Alu
pub mod Machine
pub mod Cop1
pub mod Exec
pub mod Control
pub mod Run
pub mod Fuel
pub mod Relation
pub mod Bounds
pub mod Invariant
pub mod Kept
pub mod KeptLoop
pub mod Delays
pub mod Branches
pub mod Frames
pub mod Division
