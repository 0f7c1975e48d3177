-- ===== src/Prelude/Word.antt =====
-- Rust's machine integers: `usize` of 64 bits, `i32` and their casts, with the wrap written out.
use velacritty.Prelude.{ℕ, ◌+◌, ◌-◌, ◌%◌, ◌^◌, ◌≤◌, ◌<◌, ◌≡◌, arith, ltb, if◌then◌else◌}
use velacritty.Prelude.Int.{ℤ, pos, negsuc, pos_part, neg_part, ◌+ℤ◌, ◌-ℤ◌}

-- The number that a 32-bit pattern stands for.
abbrev pub signed32 : ℕ → ℤ
signed32 w = if ltb w (2 ^ 31) then pos w else negsuc (2 ^ 32 - w - 1)

-- `n as i32` of a `usize`.
unfoldable pub i32_of : ℕ → ℤ
i32_of n = signed32 (n % 2 ^ 32)

-- The `i32` that an integer wraps to.
unfoldable pub i32_wrap : ℤ → ℤ
i32_wrap (pos n) = signed32 (n % 2 ^ 32)
i32_wrap (negsuc n) = signed32 (2 ^ 32 - 1 - n % 2 ^ 32)

-- `z as usize` of an `i32`.
unfoldable pub usize_of : ℤ → ℕ
usize_of (pos n) = n % 2 ^ 64
usize_of (negsuc n) = 2 ^ 64 - 1 - n % 2 ^ 64

infixl 65 ◌+ᵢ◌ ◌-ᵢ◌
-- `+` and `-` of `i32`.
unfoldable pub ◌+ᵢ◌ : ℤ → ℤ → ℤ
unfolding ◌+ℤ◌ i32_wrap
a +ᵢ b = i32_wrap (a +ℤ b)

unfoldable pub ◌-ᵢ◌ : ℤ → ℤ → ℤ
unfolding ◌-ℤ◌ i32_wrap
a -ᵢ b = i32_wrap (a -ℤ b)

-- `-` of `usize`.
abbrev pub usize_sub : ℕ → ℕ → ℕ
usize_sub a b = (a + 2 ^ 64 - b) % 2 ^ 64

-- `+` of `usize`.
abbrev pub usize_add : ℕ → ℕ → ℕ
usize_add a b = (a + b) % 2 ^ 64

-- The range of an `i32`.
abbrev pub FitsI32 : ℤ → Type 0
FitsI32 a = (pos_part a < 2 ^ 31) × (neg_part a ≤ 2 ^ 31)

pub i32_of-eq_pos : (n : ℕ) → n < 2 ^ 31 → i32_of n ≡ pos n
unfolding i32_of
i32_of-eq_pos n h = ground arith

pub i32_wrap_fits : (a : ℤ) → FitsI32 a → i32_wrap a ≡ a
unfolding i32_wrap
i32_wrap_fits a h = ground arith

pub FitsI32-i32_wrap : (a : ℤ) → FitsI32 (i32_wrap a)
unfolding i32_wrap
FitsI32-i32_wrap a = ground arith
