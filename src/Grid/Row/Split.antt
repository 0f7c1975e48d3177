-- ===== src/Grid/Row/Split.antt =====
-- What `Row::shrink` takes off, and how splitting and joining undo one another.
use velacritty.Prelude.{
  ℕ, ◌≤◌, ◌<◌, ◌≡◌, refl, true, Option, none, some, List, [], ◌∷◌, ◌++◌, arith, leb-false, length,
  take, drop, length-take, take-append-drop,
}
use velacritty.Grid.Cell.{GridCell}
use velacritty.Grid.Row.{
  Row, rposition, content_len, shrink, all_empty, front_split_off, append_front,
}

-- The cells that a `shrink` hands over, none for `None`.
abbrev pub handed {ℓ} : {T : Type ℓ} → Option (List T) → List T
handed none = []
handed (some cells) = cells

module _ {ℓ} {T : Type ℓ} ⦃g : GridCell T⦄ where
  all_empty-drop-content_len : (cells : List T) → all_empty (drop (content_len cells) cells) ≡ true
  unfolding content_len rposition all_empty
  all_empty-drop-content_len [] = refl
  all_empty-drop-content_len (c ∷ cs) = ground (arith, all_empty-drop-content_len cs)

  handed_lem : (cells : List T) → handed (elim cells [ [] ↦ none | c ∷ cs ↦ some (c ∷ cs) ]) ≡ cells
  handed_lem [] = refl
  handed_lem (c ∷ cs) = refl

  -- A row that shrinks splits into what stays, `columns` cells of it, what is handed on, and empty
  -- cells that are dropped: no content is lost.
  pub shrink_lem :
      (row : Row T) (columns : ℕ)
      → columns < length row.inner
      → let (taken, row') = shrink row columns in
        (r : List T) × (row'.inner ++ (handed taken ++ r) ≡ row.inner)
        × (all_empty r ≡ true)
        × (length row'.inner ≡ columns)
        × (row'.occ ≤ columns)
  unfolding shrink
  shrink_lem row columns h =
      let tail = drop columns row.inner in
      rw (leb-false (length row.inner) columns h) (
        drop (content_len tail) tail,
        rw (handed_lem (take (content_len tail) tail), take-append-drop (content_len tail) tail)
            (take-append-drop columns row.inner),
        all_empty-drop-content_len tail,
        omega (arith, length-take columns row.inner),
        omega arith,
      )

module _ {ℓ} {T : Type ℓ} where
  -- The cells split off the front, put back in front, give the row's cells again.
  pub append_front-front_split_off :
      (row : Row T) (at : ℕ)
      → (append_front (front_split_off row at).1 (front_split_off row at).0).inner ≡ row.inner
  unfolding append_front front_split_off
  append_front-front_split_off row at = take-append-drop at row.inner
