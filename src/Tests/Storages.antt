-- ===== src/Tests/Storages.antt =====
use velacritty.Prelude.{ℕ, ◌+◌, ◌≡◌, ◌<◌, refl, ◌⊎◌, [], ◌∷◌, ◌++◌, arith, max, length, take}
use velacritty.Prelude.Rings.{window}
use velacritty.Prelude.Int.{pos, negsuc, ◌-ℤ◌}
use velacritty.Grid.Row.{Row}
use velacritty.Grid.Storage
use velacritty.Grid.Storage.{Storage, max_cache_size}
use velacritty.Grid.Storage.Index.{IsValid}
use velacritty.Grid.Storage.View.{view, index_mut-line_at, swap_lines-line_at}
use velacritty.Grid.Storage.Lines.{truncate_lem, shrink_lines_lem, rotate_up, initialize_lem}
use velacritty.Tests.Cells.{char_cell}

abbrev row : ℕ → Row ℕ
row c = record { inner = c ∷ []; occ = 1 }

-- Three lines in use of four that are stored, from index 2 on: the screen has the last two.
abbrev turned : Storage ℕ
turned = record { inner = row 3 ∷ row 4 ∷ row 1 ∷ row 2 ∷ []; zero = 2; visible_lines = 2; len = 3 }

turned-IsValid : IsValid turned
turned-IsValid = omega arith

view-turned : view turned ≡ row 1 ∷ row 2 ∷ row 3 ∷ []
view-turned = refl

index_mut-line_at_example :
    IsValid (Storage.index_mut turned (negsuc 0) (row 9))
    × (view (Storage.index_mut turned (negsuc 0) (row 9)) ≡ row 1 ∷ row 2 ∷ row 9 ∷ [])
index_mut-line_at_example = index_mut-line_at turned 2 (row 9) turned-IsValid (omega arith)

swap_lines-line_at_example :
    IsValid (Storage.swap_lines turned (pos 1) (negsuc 0))
    × (view (Storage.swap_lines turned (pos 1) (negsuc 0)) ≡ row 3 ∷ row 2 ∷ row 1 ∷ [])
swap_lines-line_at_example =
    swap_lines-line_at turned 0 2 turned-IsValid (omega arith) (omega arith)

truncate_lem_example :
    IsValid (Storage.truncate turned)
    × (view (Storage.truncate turned) ≡ row 1 ∷ row 2 ∷ row 3 ∷ [])
    × ((Storage.truncate turned).inner ≡ row 1 ∷ row 2 ∷ row 3 ∷ [])
truncate_lem_example = truncate_lem turned turned-IsValid

shrink_lines_lem_example :
    IsValid (Storage.shrink_lines turned 1)
    × (view (Storage.shrink_lines turned 1) ≡ row 1 ∷ row 2 ∷ [])
    × ((Storage.shrink_lines turned 1).len ≡ 2)
    × ((Storage.shrink_lines turned 1).visible_lines ≡ 2)
shrink_lines_lem_example = shrink_lines_lem turned 1 turned-IsValid (omega arith)

rotate_up_example :
    let s' = Storage.rotate turned (pos 0 -ℤ pos 1) in
    IsValid s' × (view s' ≡ window s'.zero 1 s'.inner ++ (row 1 ∷ row 2 ∷ []))
rotate_up_example = rotate_up turned 1 turned-IsValid (omega arith)

initialize_lem_example :
    let s' = Storage.initialize turned 5 1 in
    IsValid s'
    × (s'.len ≡ 8)
    × (s'.visible_lines ≡ 2)
    × (take 3 (view s') ≡ row 1 ∷ row 2 ∷ row 3 ∷ [])
    × ((length s'.inner ≡ 4) ⊎ (4 < 3 + 5) × (length s'.inner ≡ 4 + max 5 max_cache_size))
initialize_lem_example = initialize_lem turned 5 1 turned-IsValid (omega arith)
