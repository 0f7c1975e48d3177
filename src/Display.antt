-- ===== src/Display.antt =====
-- velacritty/src/display: what of drawing does not need the graphics library.
pub mod Damage
