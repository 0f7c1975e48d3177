-- ===== src/Term.antt =====
-- velacritty_terminal/src/term: the terminal, its cells and the viewport's coordinates.
pub mod ViMode
pub mod Search
pub mod Selected
pub mod Input
pub mod View
pub mod Options
pub mod Screen
pub mod Modes
pub mod Edit
pub mod Stacks
pub mod Attributes
pub mod External
pub mod Flags
pub mod Cell
pub mod Mode
pub mod State
pub mod Scroll
pub mod Cursor
pub mod TabStops
pub mod Damage
pub mod ViewPoints
