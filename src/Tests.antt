-- ===== src/Tests.antt =====
-- Runs of the model on concrete data, and each property at data that meets its hypotheses.
pub mod Cells
mod Rows
mod Storages
mod Grids
mod Messages
mod Points
mod Schedulers
mod Terminal
mod Terms
mod Shorteners
mod Selections
