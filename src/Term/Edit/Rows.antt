-- ===== src/Term/Edit/Rows.antt =====
-- What `insert_blank` and `delete_chars` leave in the cells of the cursor's line.
use velacritty.Prelude.{
  ℕ, zero, suc, ◌+◌, ◌-◌, ◌≤◌, ◌<◌, ◌^◌, ◌≡◌, Option, some, List, refl, ap, ◌∙◌, arith, min, ltb,
  leb, if◌then◌else◌, length, get_elem?, get_elem?_congr, Bool-cases, inl, inr, get_elem?-set_self,
  length-set, set, ◌∷◌, [],
}
use velacritty.Prelude.Int.{ℤ}
use velacritty.Prelude.Shifts.{
  fill, shift_right, shift_left, get_elem?-fill_in, get_elem?-fill_before, get_elem?-fill_after,
}
use velacritty.Prelude.Shifts.Moves.{
  length-shift_right, length-shift_left, shift_right_before, shift_right_moved, shift_left_before,
  shift_left_moved,
}
use velacritty.Prelude.Word.{usize_sub}
use velacritty.Grid.Row
use velacritty.Grid.Row.{Row}
use velacritty.Grid.Row.Slices.{all_mut}
use velacritty.Grid.Cells
use velacritty.Grid.Storage
use velacritty.Grid.Storage.{Storage}
use velacritty.Term.Cell.{Cell}
use velacritty.Term.External.{External}
use velacritty.Term.State.{Term, cursor_point, damage_line}
use velacritty.Term.Edit.{
  insert_blank, delete_chars, insert_blank_row, delete_chars_row, update_row, blank,
}

module _ {ℓ} {A : Type ℓ} where
  abbrev inserted : ℕ → ℕ → A → List A → ℕ → Option A
  inserted source count v cells i =
      if ltb i source
      then get_elem? cells i
      else if ltb i (source + count)
      then some v
      else get_elem? cells (i - count)

  abbrev deleted : ℕ → ℕ → ℕ → A → List A → ℕ → Option A
  deleted columns start count v cells i =
      if leb (columns - count) i
      then some v
      else if ltb i start
      then get_elem? cells i
      else get_elem? cells (i + count)

  insert_cells :
      (columns source n i : ℕ) (v : A) (cells : List A)
      → length cells ≡ columns
      → source + n ≤ columns
      → i < columns
      → get_elem?
          (fill source
            (source + n)
            v
            (shift_right (columns - (source + n)) source (source + n) cells))
          i
        ≡ inserted source n v cells i
  insert_cells columns source n i v cells e h k =
      let m = columns - (source + n) in
      let shifted = shift_right m source (source + n) cells in
      let same : length shifted ≡ length cells = length-shift_right m source (source + n) cells in
      elim (Bool-cases (ltb i source)) [
        | inl a ↦ rw a (
            get_elem?-fill_before source (source + n) v shifted i (ground arith)
            ∙ shift_right_before m source (source + n) cells i (omega arith) (ground arith)
                (ground arith))
        | inr a ↦ elim (Bool-cases (ltb i (source + n))) [
          | inl b ↦
              rw (a, b)
                (get_elem?-fill_in source (source + n) v shifted i (ground arith) (ground arith)
                  (ground arith))
          | inr b ↦
              rw (a, b)
                (get_elem?-fill_after source (source + n) v shifted i (ground arith)
                  ∙ get_elem?_congr shifted {n = i} {m = source + n + (i - (source + n))}
                      (ground arith)
                  ∙ shift_right_moved m source (source + n) cells (i - (source + n)) (omega arith)
                      (ground arith) (ground arith)
                  ∙ get_elem?_congr cells {n = source + (i - (source + n))} {m = i - n}
                      (ground arith))
        ]
      ]

  delete_cells :
      (columns start end n i : ℕ) (v : A) (cells : List A)
      → length cells ≡ columns
      → start < columns
      → n ≤ columns
      → end ≡ min (start + n) (columns - 1)
      → i < columns
      → get_elem? (fill (columns - n) columns v (shift_left (columns - end) end start cells)) i
        ≡ deleted columns start n v cells i
  delete_cells columns start end n i v cells e h k f l =
      let m = columns - end in
      let shifted = shift_left m end start cells in
      let same : length shifted ≡ length cells = length-shift_left m end start cells in
      let le : start ≤ end = ground (arith, f, h) in
      let fits : end + m ≤ length cells = ground (arith, f, h, e) in
      elim (Bool-cases (leb (columns - n) i)) [
        | inl a ↦
            rw a
              (get_elem?-fill_in (columns - n) columns v shifted i (ground arith) l (ground arith))
        | inr a ↦ elim (Bool-cases (ltb i start)) [
          | inl b ↦
              rw (a, b)
                (get_elem?-fill_before (columns - n) columns v shifted i (ground arith)
                  ∙ shift_left_before m end start cells i le fits (ground arith))
          | inr b ↦
              let there : end ≡ start + n = ground (arith, f, a, b, l, k, h) in
              rw (a, b)
                (get_elem?-fill_before (columns - n) columns v shifted i (ground arith)
                  ∙ get_elem?_congr shifted {n = i} {m = start + (i - start)} (ground arith)
                  ∙ shift_left_moved m end start cells (i - start) le fits (ground arith)
                  ∙ get_elem?_congr cells {n = end + (i - start)} {m = i + n} (ground arith))
        ]
      ]

get_elem?_lt {ℓ} :
    {T : Type ℓ} (xs : List T) (i : ℕ) (a : T) → get_elem? xs i ≡ some a → i < length xs
get_elem?_lt [] i a e = cc
get_elem?_lt (x ∷ xs) zero a e = omega arith
get_elem?_lt (x ∷ xs) (suc i) a e = omega (arith, get_elem?_lt xs i a e)

min_of :
    (columns start count : ℕ)
    → start < columns
    → columns < 2 ^ 31
    → start + min count (usize_sub columns start) ≤ columns
min_of columns start count h k = ground arith

module _ {ℓ} {T : Type ℓ} where
  compute_index-set :
      (s : Storage T) (k : ℕ) (row : Row T) (line : ℤ)
      → Storage.compute_index (record s { inner = set s.inner k row }) line
        ≡ Storage.compute_index s line
  unfolding Storage.compute_index
  compute_index-set s k row line = rw (length-set s.inner k row) refl

  -- A row that was written is read back.
  pub index-index_mut :
      (s : Storage T) (line : ℤ) (old row : Row T)
      → Storage.index s line ≡ some old
      → Storage.index (Storage.index_mut s line row) line ≡ some row
  unfolding Storage.index Storage.index_mut
  index-index_mut s line old row e =
      ap (get_elem? (set s.inner (Storage.compute_index s line) row))
        (compute_index-set s (Storage.compute_index s line) row line)
      ∙ get_elem?-set_self s.inner (Storage.compute_index s line) row
          (get_elem?_lt s.inner (Storage.compute_index s line) old e)

module _ {x : External} where
  -- The cell in a column of the cursor's line.
  abbrev pub cell_at : Term x → ℕ → Option (Cell x)
  cell_at self i = Cells.index self.grid (record (cursor_point self) { column = i })

  -- The cursor is in a row that has the grid's number of columns.
  pub record InRow (self : Term x) (row : Row (Cell x)) : Type 0 where
    pub here : Storage.index self.grid.raw (cursor_point self).line ≡ some row
    pub whole : length row.inner ≡ self.grid.columns
    pub within : (cursor_point self).column < self.grid.columns
    pub fits : self.grid.columns < 2 ^ 31

  update_row-cell_at :
      (self : Term x) (row : Row (Cell x)) (f : Row (Cell x) → Row (Cell x)) (i : ℕ)
      → Storage.index self.grid.raw (cursor_point self).line ≡ some row
      → cell_at (update_row self (cursor_point self).line f) i ≡ get_elem? (f row).inner i
  unfolding update_row Cells.index Row.index
  update_row-cell_at self row f i e =
      rw
        (
          update_row,
          e,
          Cells.index,
          index-index_mut self.grid.raw (cursor_point self).line row (f row) e,
        )
        refl

  cell_at-row :
      (self : Term x) (row : Row (Cell x)) (i : ℕ)
      → Storage.index self.grid.raw (cursor_point self).line ≡ some row
      → cell_at self i ≡ get_elem? row.inner i
  unfolding Cells.index Row.index
  cell_at-row self row i e = rw (Cells.index, e) refl

  inserted-min :
      (columns source count i : ℕ) (v : Cell x) (cells : List (Cell x))
      → source < columns
      → columns < 2 ^ 31
      → i < columns
      → inserted source (min count (usize_sub columns source)) v cells i
        ≡ inserted source count v cells i
  inserted-min columns source count i v cells h k l = ground arith

  deleted-min :
      (columns start count i : ℕ) (v : Cell x) (cells : List (Cell x))
      → i < columns
      → deleted columns start (min count columns) v cells i ≡ deleted columns start count v cells i
  deleted-min columns start count i v cells l = ground arith

  -- `insert_blank` keeps the cells before the cursor, makes `count` blanks from the cursor on, with
  -- the background of the cursor's template, and moves the cells from the cursor on behind these, as
  -- many as the row has place for. The cursor is in a row as long as the grid is wide.
  pub insert_blank_lem :
      (self : Term x) (row : Row (Cell x)) (count i : ℕ)
      → InRow self row
      → i < self.grid.columns
      → cell_at (insert_blank self count) i ≡ (
          if ltb i (cursor_point self).column
          then cell_at self i
          else if ltb i ((cursor_point self).column + count)
          then some (blank self)
          else cell_at self (i - count))
  unfolding insert_blank insert_blank_row damage_line all_mut
  insert_blank_lem self row count i r l =
      let source = (cursor_point self).column in
      let columns = self.grid.columns in
      let n = min count (usize_sub columns source) in
      update_row-cell_at (damage_line self (cursor_point self).line 0 (usize_sub columns 1)) row
        (insert_blank_row columns source count (blank self)) i r.here
      ∙ insert_cells columns source n i (blank self) row.inner r.whole
          (min_of columns source count r.within r.fits) l
      ∙ inserted-min columns source count i (blank self) row.inner r.within r.fits l
      ∙ rw (cell_at-row self row i r.here, cell_at-row self row (i - count) r.here) refl

  -- `delete_chars` makes the last `count` cells of the row blank; before these it keeps the cells
  -- before the cursor and moves the others back by `count`. So it also makes cells before the cursor
  -- blank when `count` is larger than the number of cells from the cursor on. The cursor is in a row
  -- as long as the grid is wide.
  pub delete_chars_lem :
      (self : Term x) (row : Row (Cell x)) (count i : ℕ)
      → InRow self row
      → i < self.grid.columns
      → cell_at (delete_chars self count) i ≡ (
          if leb (self.grid.columns - count) i
          then some (blank self)
          else if ltb i (cursor_point self).column
          then cell_at self i
          else cell_at self (i + count))
  unfolding delete_chars delete_chars_row damage_line all_mut
  delete_chars_lem self row count i r l =
      let start = (cursor_point self).column in
      let columns = self.grid.columns in
      let n = min count columns in
      update_row-cell_at (damage_line self (cursor_point self).line 0 (usize_sub columns 1)) row
        (delete_chars_row columns start count (blank self)) i r.here
      ∙ delete_cells columns start (min (start + n) (columns - 1)) n i (blank self) row.inner
          r.whole r.within (omega arith) refl l
      ∙ deleted-min columns start count i (blank self) row.inner l
      ∙ rw (cell_at-row self row i r.here, cell_at-row self row (i + count) r.here) refl
