-- ===== src/Grid/Storage.antt =====
-- velacritty_terminal/src/grid/storage.rs: the ring buffer of rows. Line 0 is the top line of the
-- screen, and the rows are kept from the bottom line up, starting at `zero`.
pub mod Index
pub mod View
pub mod Lines
use velacritty.Prelude.{
  ℕ, ◌+◌, ◌%◌, ◌^◌, Bool, Option, none, some, List, [], ltb, leb, ◌==◌, if◌then◌else◌, max, length,
  get_elem?, set, take, replicate, resize, rotate_left, swap,
}
use velacritty.Prelude.Int.{ℤ, pos, ◌+ℤ◌}
use velacritty.Prelude.Word.{i32_of, usize_of, usize_add, usize_sub, ◌-ᵢ◌}
use velacritty.Grid.Cell.{GridCell}
use velacritty.Grid.Row
use velacritty.Grid.Row.{Row}

abbrev pub max_cache_size : ℕ
max_cache_size = 1000

pub record Storage {ℓ} (T : Type ℓ) : Type ℓ where
  pub inner : List (Row T)
  pub zero : ℕ
  pub visible_lines : ℕ
  pub len : ℕ

module _ {ℓ} {T : Type ℓ} where
  unfoldable pub rezero : Storage T → Storage T
  rezero s = if s.zero == 0 then s else record s { inner = rotate_left s.zero s.inner; zero = 0 }

  unfoldable pub truncate : Storage T → Storage T
  unfolding rezero
  truncate s = let s' = rezero s in record s' { inner = take s'.len s'.inner }

  unfoldable pub shrink_lines : Storage T → ℕ → Storage T
  shrink_lines s shrinkage =
      let s' = record s { len = usize_sub s.len shrinkage } in
      if ltb (usize_add s'.len max_cache_size) (length s'.inner) then truncate s' else s'

  unfoldable pub shrink_visible_lines : Storage T → ℕ → Storage T
  shrink_visible_lines s next =
      let shrinkage = usize_sub s.visible_lines next in
      record (shrink_lines s shrinkage) { visible_lines = next }

  -- The index in `inner` of a line.
  unfoldable pub compute_index : Storage T → ℤ → ℕ
  compute_index s requested =
      let positive = usize_sub (usize_of (pos 0 -ᵢ (requested -ᵢ i32_of s.visible_lines))) 1 in
      let zeroed = usize_add s.zero positive in
      if leb (length s.inner) zeroed then usize_sub zeroed (length s.inner) else zeroed

  -- `storage[line]`: a read out of bounds panics, here `none`.
  unfoldable pub index : Storage T → ℤ → Option (Row T)
  index s line = get_elem? s.inner (compute_index s line)

  -- `storage[line] = row`, or a change of the row in place, which ends in this write. A write out of
  -- bounds panics, and here changes nothing.
  unfoldable pub index_mut : Storage T → ℤ → Row T → Storage T
  index_mut s line row = record s { inner = set s.inner (compute_index s line) row }

  -- `Storage::swap` exchanges the two rows word by word.
  unfoldable pub swap_lines : Storage T → ℤ → ℤ → Storage T
  swap_lines s a b = record s { inner = swap s.inner (compute_index s a) (compute_index s b) }

  -- The sum of `isize` numbers, cast to `usize`. An empty buffer panics in `%`; here `n % 0` is `n`.
  unfoldable pub rotate : Storage T → ℤ → Storage T
  unfolding ◌+ℤ◌ usize_of
  rotate s count =
      let len = length s.inner in
      record s { zero = usize_of (pos s.zero +ℤ count +ℤ pos len) % len }

  unfoldable pub rotate_down : Storage T → ℕ → Storage T
  rotate_down s count = record s { zero = usize_add s.zero count % length s.inner }

  unfoldable pub replace_inner : Storage T → List (Row T) → Storage T
  replace_inner s vec = record s { len = length vec; inner = vec; zero = 0 }

  unfoldable pub take_all : Storage T → List (Row T) × Storage T
  take_all s = let s' = truncate s in (s'.inner, record s' { inner = []; len = 0 })

module _ {ℓ} {T : Type ℓ} ⦃g : GridCell T⦄ where
  unfoldable pub with_capacity : ℕ → ℕ → Storage T
  with_capacity visible_lines columns = record {
    inner = replicate visible_lines (Row.new columns);
    zero = 0;
    visible_lines = visible_lines;
    len = visible_lines;
  }

  -- The part of `initialize` that makes room in `inner`.
  unfoldable pub reserve : Storage T → ℕ → ℕ → Storage T
  reserve s additional_rows columns =
      let s' = rezero s in
      let realloc_size = usize_add (length s'.inner) (max additional_rows max_cache_size) in
      if ltb (length s.inner) (usize_add s.len additional_rows)
      then record s' { inner = resize realloc_size (Row.new columns) s'.inner }
      else s

  unfoldable pub initialize : Storage T → ℕ → ℕ → Storage T
  initialize s additional_rows columns =
      let s' = reserve s additional_rows columns in
      record s' { len = usize_add s'.len additional_rows }

  -- `self[Line(0)].len()`; without a line 0 the code panics.
  unfoldable pub row_len : Storage T → ℕ
  row_len s = elim (index s (pos 0)) [ none ↦ 0 | some row ↦ Row.len row ]

  unfoldable pub grow_visible_lines : Storage T → ℕ → Storage T
  unfolding row_len
  grow_visible_lines s next =
      let additional_lines = usize_sub next s.visible_lines in
      record (initialize s additional_lines (row_len s)) { visible_lines = next }
