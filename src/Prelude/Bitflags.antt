-- ===== src/Prelude/Bitflags.antt =====
-- Values of the crate bitflags: sets of bits, by the position of a bit.
use velacritty.Prelude.{ℕ, Bool, true, false, not, ◌&&◌, ◌||◌, List, [], ◌∷◌, ◌==◌, if◌then◌else◌}

abbrev pub Bits : Type 0
Bits = ℕ → Bool

abbrev pub empty : Bits
empty k = false

abbrev pub flag : ℕ → Bits
flag i k = k == i

abbrev pub insert : Bits → ℕ → Bits
insert bits i k = if k == i then true else bits k

abbrev pub remove : Bits → ℕ → Bits
remove bits i k = if k == i then false else bits k

-- `^=` with one flag.
abbrev pub toggle : Bits → ℕ → Bits
toggle bits i k = if k == i then not (bits k) else bits k

abbrev pub put : Bits → ℕ → Bool → Bits
put bits i b k = if k == i then b else bits k

-- `contains` of one flag.
abbrev pub contains : Bits → ℕ → Bool
contains bits i = bits i

abbrev pub member : List ℕ → ℕ → Bool
member [] k = false
member (i ∷ is) k = (k == i) || member is k

abbrev pub intersects : Bits → List ℕ → Bool
intersects bits [] = false
intersects bits (i ∷ is) = bits i || intersects bits is

-- `remove` of several flags, and `&` with several flags.
abbrev pub remove_all : Bits → List ℕ → Bits
remove_all bits is k = if member is k then false else bits k

abbrev pub keep : Bits → List ℕ → Bits
keep bits is k = member is k && bits k

abbrev pub union : Bits → Bits → Bits
union a b k = a k || b k

abbrev pub difference : Bits → Bits → Bits
difference a b k = a k && not (b k)
