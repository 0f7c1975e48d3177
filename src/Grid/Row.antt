-- ===== src/Grid/Row.antt =====
-- velacritty_terminal/src/grid/row.rs: a line of cells with the count of those that may be dirty.
pub mod Reset
pub mod Slices
pub mod Split
use velacritty.Prelude.{
  ℕ, zero, suc, ◌+◌, ◌-◌, Bool, true, not, Option, none, some, List, [], ◌∷◌, ◌++◌, ◌&&◌, leb,
  if◌then◌else◌, min, max, length, get_elem?, set, take, drop, replicate,
}
use velacritty.Grid.Cell.{GridCell}

-- `inner` is the vector of cells; cells from `occ` on are equal to one another.
pub record Row {ℓ} (T : Type ℓ) : Type ℓ where
  pub inner : List T
  pub occ : ℕ

-- The index of the last element that passes a test (`Iterator::rposition`).
unfoldable pub rposition {ℓ} : {A : Type ℓ} → (A → Bool) → List A → Option ℕ
rposition p [] = none
rposition p (x ∷ xs) = elim (rposition p xs) [
  | some i ↦ some (suc i)
  | none ↦ if p x then some 0 else none
]

-- The first `n` elements, each put through `f`.
unfoldable pub map_prefix {ℓ} : {A : Type ℓ} → ℕ → (A → A) → List A → List A
map_prefix zero f xs = xs
map_prefix (suc n) f [] = []
map_prefix (suc n) f (x ∷ xs) = f x ∷ map_prefix n f xs

module _ {ℓ} {T : Type ℓ} where
  unfoldable pub from_vec : List T → ℕ → Row T
  from_vec vec occ = record { inner = vec; occ = occ }

  unfoldable pub len : Row T → ℕ
  len row = length row.inner

  unfoldable pub append : Row T → List T → Row T
  append row vec = record { inner = row.inner ++ vec; occ = row.occ + length vec }

  unfoldable pub append_front : Row T → List T → Row T
  append_front row vec = record { inner = vec ++ row.inner; occ = row.occ + length vec }

  -- The cells before `at` are returned, and the row keeps the rest.
  unfoldable pub front_split_off : Row T → ℕ → List T × Row T
  front_split_off row at =
      (take at row.inner, record { inner = drop at row.inner; occ = row.occ - at })

  -- `row[column]`: a read past the end panics, here `none`.
  unfoldable pub index : Row T → ℕ → Option T
  index row column = get_elem? row.inner column

  -- `row[column] = cell`: the write marks the cells up to `column` as dirty. A write past the end
  -- panics; here it leaves the cells alone.
  unfoldable pub index_mut : Row T → ℕ → T → Row T
  index_mut row column cell = record {
    inner = set row.inner column cell;
    occ = max row.occ (column + 1);
  }

module _ {ℓ} {T : Type ℓ} ⦃g : GridCell T⦄ where
  unfoldable pub new : ℕ → Row T
  new columns = record { inner = replicate columns g.default; occ = 0 }

  unfoldable pub grow : Row T → ℕ → Row T
  grow row columns =
      if leb columns (length row.inner)
      then row
      else record row { inner = row.inner ++ replicate (columns - length row.inner) g.default }

  -- How many of the cells that `shrink` takes off it hands on: up to the last one with content.
  unfoldable pub content_len : List T → ℕ
  content_len cells = elim (rposition (λ c. not (g.is_empty c)) cells) [ some i ↦ suc i | none ↦ 0 ]

  unfoldable pub shrink : Row T → ℕ → Option (List T) × Row T
  shrink row columns =
      if leb (length row.inner) columns
      then (none, row)
      else let new_row = take (content_len (drop columns row.inner)) (drop columns row.inner) in
        (
          elim new_row [ [] ↦ none | c ∷ cs ↦ some (c ∷ cs) ],
          record { inner = take columns row.inner; occ = min row.occ columns },
        )

  -- Whether every cell is empty.
  unfoldable pub all_empty : List T → Bool
  all_empty [] = true
  all_empty (c ∷ cs) = g.is_empty c && all_empty cs

  unfoldable pub is_clear : Row T → Bool
  unfolding all_empty
  is_clear row = all_empty row.inner

  -- How many cells `reset` goes through: all of them if the last one has another discriminant
  -- than the template. (On an empty row the code panics; a row has a cell at least.)
  unfoldable pub dirty : Row T → T → ℕ
  dirty row template = elim (get_elem? row.inner (length row.inner - 1)) [
    | none ↦ row.occ
    | some last ↦ if g.same_discriminant last template then row.occ else length row.inner
  ]

  unfoldable pub reset : Row T → T → Row T
  unfolding dirty map_prefix
  reset row template = record {
    inner = map_prefix (dirty row template) (λ c. g.reset c template) row.inner;
    occ = 0;
  }
