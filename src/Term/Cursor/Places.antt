-- ===== src/Term/Cursor/Places.antt =====
-- Writing to the cells of the screen leaves the cursor where it is.
use velacritty.Prelude.{ℕ, ◌≡◌, ◌∙◌, Bool, true, false, none, some, refl, ap, if◌then◌else◌, min}
use velacritty.Prelude.Int.{ℤ}
use velacritty.Prelude.Word.{usize_add, usize_sub}
use velacritty.Index.{Point}
use velacritty.Grid.Frame.{update-SameFrame}
use velacritty.Grid.Row.{Row}
use velacritty.Grid.Row.Slices.{fill_range}
use velacritty.Grid.Storage
use velacritty.Term.Cell.{Cell, cell}
use velacritty.Term.Edit
use velacritty.Term.Edit.{LineClearMode, clear_right, clear_left, clear_all}
use velacritty.Term.External.{External}
use velacritty.Term.Input
use velacritty.Term.State.{Term, cursor_point, damage_line, set_template}
use velacritty.Term.Cursor.Inside.{OnScreen}

module _ {x : External} where
  -- What a write leaves alone.
  pub record SamePlace (before after : Term x) : Type 0 where
    pub point : after.grid.cursor.point ≡ before.grid.cursor.point
    pub saved_point : after.grid.saved_cursor.point ≡ before.grid.saved_cursor.point
    pub lines : after.grid.lines ≡ before.grid.lines
    pub columns : after.grid.columns ≡ before.grid.columns
    pub region : after.scroll_region ≡ before.scroll_region
    pub mode : after.mode ≡ before.mode
    pub inactive : after.inactive_grid ≡ before.inactive_grid

  pub SamePlace-trans : {s t u : Term x} → SamePlace s t → SamePlace t u → SamePlace s u
  SamePlace-trans a b = record {
    point = b.point ∙ a.point;
    saved_point = b.saved_point ∙ a.saved_point;
    lines = b.lines ∙ a.lines;
    columns = b.columns ∙ a.columns;
    region = b.region ∙ a.region;
    mode = b.mode ∙ a.mode;
    inactive = b.inactive ∙ a.inactive;
  }

  pub SamePlace-refl : (s : Term x) → SamePlace s s
  SamePlace-refl s = record {
    point = refl;
    saved_point = refl;
    lines = refl;
    columns = refl;
    region = refl;
    mode = refl;
    inactive = refl;
  }

  pub SamePlace-OnScreen : {s t : Term x} → SamePlace s t → OnScreen s → OnScreen t
  SamePlace-OnScreen a w = rw (a.point, a.saved_point, a.lines, a.columns, a.region, a.inactive) w

  pub SamePlace-if :
      {s t u : Term x} (b : Bool) → SamePlace s t → SamePlace s u → SamePlace s (if b then t else u)
  SamePlace-if true a c = a
  SamePlace-if false a c = c

  pub either-OnScreen :
      (b : Bool) (s t : Term x) → OnScreen s → OnScreen t → OnScreen (if b then s else t)
  either-OnScreen true s t v w = v
  either-OnScreen false s t v w = w

  pub update-SamePlace :
      (self : Term x) (point : Point) (f : Cell x → Cell x)
      → SamePlace self (Input.update self point f)
  update-SamePlace self point f =
      let h = update-SameFrame self.grid point f in
      record {
        point = ap (λ c. c.point) h.cursor;
        saved_point = ap (λ c. c.point) h.saved_cursor;
        lines = h.lines;
        columns = h.columns;
        region = refl;
        mode = refl;
        inactive = refl;
      }

  pub template-SamePlace :
      (self : Term x) (template : Cell x) → SamePlace self (set_template self template)
  template-SamePlace self template = record {
    point = refl;
    saved_point = refl;
    lines = refl;
    columns = refl;
    region = refl;
    mode = refl;
    inactive = refl;
  }

  pub update_row-SamePlace :
      (self : Term x) (line : ℤ) (f : Row (Cell x) → Row (Cell x))
      → SamePlace self (Edit.update_row self line f)
  unfolding Edit.update_row
  update_row-SamePlace self line f =
      elim (Storage.index self.grid.raw line)
        as (λ o. SamePlace self (elim o [
          | none ↦ self
          | some row ↦ record self {
            grid = record self.grid { raw = Storage.index_mut self.grid.raw line (f row) };
          }
        ])) [
          | none ↦ SamePlace-refl self
          | some row ↦ record {
            point = refl;
            saved_point = refl;
            lines = refl;
            columns = refl;
            region = refl;
            mode = refl;
            inactive = refl;
          }
        ]

  damage_line-SamePlace :
      (self : Term x) (line : ℤ) (left right : ℕ)
      → SamePlace self (damage_line self line left right)
  unfolding damage_line
  damage_line-SamePlace self line left right = record {
    point = refl;
    saved_point = refl;
    lines = refl;
    columns = refl;
    region = refl;
    mode = refl;
    inactive = refl;
  }

  -- A change of the row of the cursor's line after that line was damaged.
  edited-SamePlace :
      (self : Term x) (left right : ℕ) (f : Row (Cell x) → Row (Cell x))
      → SamePlace self (
          Edit.update_row
            (damage_line self (cursor_point self).line left right)
            (cursor_point self).line
            f)
  edited-SamePlace self left right f =
      SamePlace-trans (damage_line-SamePlace self (cursor_point self).line left right) (
        update_row-SamePlace (damage_line self (cursor_point self).line left right)
          (cursor_point self).line f)

  clear_columns-SamePlace :
      (self : Term x) (columns : ℕ × ℕ) → SamePlace self (Edit.clear_columns self columns)
  unfolding Edit.clear_columns
  clear_columns-SamePlace self (left, right) =
      let h =
        edited-SamePlace self left (usize_sub right 1)
          (λ row. fill_range row left right (Edit.blank self)) in
      record {
        point = h.point;
        saved_point = h.saved_point;
        lines = h.lines;
        columns = h.columns;
        region = h.region;
        mode = h.mode;
        inactive = h.inactive;
      }

  pub clear_line-SamePlace :
      (self : Term x) (mode : LineClearMode) → SamePlace self (Edit.clear_line self mode)
  unfolding Edit.clear_line
  clear_line-SamePlace self mode =
      elim (Edit.cleared self mode)
        as (λ o.
          SamePlace self
            (elim o [ none ↦ self | some columns ↦ Edit.clear_columns self columns ])) [
              | none ↦ SamePlace-refl self
              | some columns ↦ clear_columns-SamePlace self columns
            ]

  pub insert_blank-SamePlace : (self : Term x) (n : ℕ) → SamePlace self (Edit.insert_blank self n)
  unfolding Edit.insert_blank
  insert_blank-SamePlace self n =
      edited-SamePlace self 0 (usize_sub self.grid.columns 1)
        (Edit.insert_blank_row self.grid.columns (cursor_point self).column n (Edit.blank self))

  pub delete_chars-SamePlace : (self : Term x) (n : ℕ) → SamePlace self (Edit.delete_chars self n)
  unfolding Edit.delete_chars
  delete_chars-SamePlace self n =
      edited-SamePlace self 0 (usize_sub self.grid.columns 1)
        (Edit.delete_chars_row self.grid.columns (cursor_point self).column n (Edit.blank self))

  pub erase_chars-SamePlace : (self : Term x) (n : ℕ) → SamePlace self (Edit.erase_chars self n)
  unfolding Edit.erase_chars
  erase_chars-SamePlace self n =
      let point = cursor_point self in
      let end = min (usize_add point.column n) self.grid.columns in
      edited-SamePlace self point.column end
        (λ row. fill_range row point.column end (Edit.blank self))
