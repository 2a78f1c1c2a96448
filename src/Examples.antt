-- ===== src/Examples.antt =====
-- Runs at concrete inputs, and the theorems at inputs that meet their hypotheses.
mod Archives
mod Areas
mod Commands
mod Deaths
mod Heaps
mod Keys
mod Pages
mod Reads
mod Tables
mod Tasks
mod Texts
mod Zombies
