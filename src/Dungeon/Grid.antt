-- ===== src/Dungeon/Grid.antt =====
-- internal/models/dungeon.go and internal/repository/dungeon.go: cells of the dungeon grid.
use magic_jigsaw.Prelude.{
  ◌+◌, ◌-◌, ◌≡◌, ◌⊎◌, inl, inr, Bool, true, false, ◌&&◌, List, [], ◌∷◌, arith, ℤ, pos, negsuc,
  pos_part, ◌+ℤ◌, ◌≤ℤ◌, ◌<ℤ◌, int_le, int_lt, int_eq, int_add, int_sub, int_neg, if◌then◌else◌, In,
  Bool-cases, ◌≢◌,
}
use magic_jigsaw.Db.Schema.{Cell}

-- const DungeonGridCols, DungeonGridRows
abbrev pub dungeon_grid_cols : ℤ
dungeon_grid_cols = pos 6

abbrev pub dungeon_grid_rows : ℤ
dungeon_grid_rows = pos 8

-- `a == b` on models.Cell
unfoldable pub cell_eq : Cell → Cell → Bool
cell_eq a b = int_eq a.row b.row && int_eq a.col b.col

unfoldable pub cell_in_bounds : Cell → Bool
cell_in_bounds c =
    int_le (pos 0) c.row
    && (int_lt c.row dungeon_grid_rows && (int_le (pos 0) c.col && int_lt c.col dungeon_grid_cols))

-- `d := a - b; if d < 0 { d = -d }`
unfoldable pub abs_diff : ℤ → ℤ → ℤ
abs_diff a b = let d = int_sub a b in if int_lt d (pos 0) then int_neg d else d

-- repository.manhattan
unfoldable pub manhattan : Cell → Cell → ℤ
manhattan a b = int_add (abs_diff a.row b.row) (abs_diff a.col b.col)

-- models.cellsAdjacent
unfoldable pub cells_adjacent : Cell → Cell → Bool
cells_adjacent a b = int_eq (int_add (abs_diff a.row b.row) (abs_diff a.col b.col)) (pos 1)

-- `seen[c]` of a set of cells
unfoldable pub has_cell : Cell → List Cell → Bool
has_cell c [] = false
has_cell c (x ∷ xs) = if cell_eq x c then true else has_cell c xs

-- On the grid of 8 rows and 6 columns.
abbrev pub InBounds : Cell → Type 0
InBounds c = (pos 0 ≤ℤ c.row) × (c.row <ℤ pos 8) × (pos 0 ≤ℤ c.col) × (c.col <ℤ pos 6)

abbrev Next : ℤ → ℤ → Type 0
Next a b = (b ≡ a +ℤ pos 1) ⊎ (a ≡ b +ℤ pos 1)

-- The cells share a side.
abbrev pub Adjacent : Cell → Cell → Type 0
Adjacent a b = ((a.row ≡ b.row) × Next a.col b.col) ⊎ ((a.col ≡ b.col) × Next a.row b.row)

pub cell_eq-eq : (a b : Cell) → cell_eq a b ≡ true → a ≡ b
unfolding cell_eq
cell_eq-eq a b h = ground arith

pub cell_eq_self : (a : Cell) → cell_eq a a ≡ true
unfolding cell_eq
cell_eq_self a = ground arith

pub cell_eq-ne : (a b : Cell) → a ≢ b → cell_eq a b ≡ false
cell_eq-ne a b h = ground (arith, cell_eq-eq a b)

pub cell_in_bounds-InBounds : (c : Cell) → cell_in_bounds c ≡ true → InBounds c
unfolding cell_in_bounds
cell_in_bounds-InBounds c h = ground arith

pub InBounds-cell_in_bounds : (c : Cell) → InBounds c → cell_in_bounds c ≡ true
unfolding cell_in_bounds
InBounds-cell_in_bounds c h = ground arith

pub has_cell-In : (c : Cell) (xs : List Cell) → has_cell c xs ≡ true → In c xs
unfolding has_cell
has_cell-In c [] h = ground arith
has_cell-In c (x ∷ xs) h = elim (Bool-cases (cell_eq x c)) [
  | inl e ↦ inl (ground (arith, cell_eq-eq x c e))
  | inr e ↦ inr (has_cell-In c xs (ground arith))
]

pub In-has_cell : (c : Cell) (xs : List Cell) → In c xs → has_cell c xs ≡ true
unfolding has_cell
In-has_cell c [] h = absurd h
In-has_cell c (x ∷ xs) (inl e) = ground (arith, cell_eq_self x)
In-has_cell c (x ∷ xs) (inr h) = ground (arith, In-has_cell c xs h)

-- In range the difference does not wrap around.
abs_diff_small :
    (a b : ℤ)
    → pos 0 ≤ℤ a
    → a <ℤ pos 8
    → pos 0 ≤ℤ b
    → b <ℤ pos 8
    → abs_diff a b ≡ pos ((pos_part a - pos_part b) + (pos_part b - pos_part a))
unfolding abs_diff
abs_diff_small (pos a) (pos b) p q r t = ground arith
abs_diff_small (negsuc a) b p q r t = absurd (omega arith)
abs_diff_small (pos a) (negsuc b) p q r t = absurd (omega arith)

pub manhattan_small :
    (a b : Cell)
    → InBounds a
    → InBounds b
    → manhattan a b
      ≡ pos (
          (pos_part a.row - pos_part b.row)
          + (pos_part b.row - pos_part a.row)
          + ((pos_part a.col - pos_part b.col) + (pos_part b.col - pos_part a.col)))
unfolding manhattan
manhattan_small a b p q =
    rw
      (
        abs_diff_small a.row b.row p.0 p.1 q.0 q.1,
        abs_diff_small a.col b.col p.2 (omega arith) q.2 (omega arith),
      )
      (ground arith)

pub cells_adjacent-Adjacent :
    (a b : Cell) → InBounds a → InBounds b → cells_adjacent a b ≡ true → Adjacent a b
unfolding cells_adjacent manhattan
cells_adjacent-Adjacent a b p q h = ground (arith, manhattan_small a b p q)

pub Adjacent-cells_adjacent :
    (a b : Cell) → InBounds a → InBounds b → Adjacent a b → cells_adjacent a b ≡ true
unfolding cells_adjacent manhattan
Adjacent-cells_adjacent a b p q h = ground (arith, manhattan_small a b p q)
