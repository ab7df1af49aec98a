-- ===== src/Tests.antt =====
-- Concrete crates and environments, tests of the definitions, and each theorem at a concrete input.
mod Alone
mod Barrier
mod Builders
mod Cells
mod Data
mod Fields
mod Interleaving
mod Interposed
mod Json
mod Merging
mod Runs
mod Sorter
mod Structs
mod Texts
mod Written
mod Witnesses
