-- ===== src/Index/Ranges.antt =====
-- `std::ops::Bound` of a range of lines.
use velacritty.Prelude.Int.{ℤ}

pub data Bound : Type 0 where
  included excluded : ℤ → Bound
  unbounded : Bound
