-- ===== src/Dungeon/Layout/Monsters.antt =====
-- The loop over the monsters accepts exactly those that stand on cells of their own, on the path
-- and off its ends, with a puzzle in range.
use magic_jigsaw.Prelude.{
  ℕ, ◌+◌, ◌≡◌, refl, sym, ◌≢◌, inl, inr, true, false, List, [], ◌∷◌, none, arith, ℤ, pos, int_le,
  All, In, Distinct, Bool-cases,
}
use magic_jigsaw.Db.Schema.{Cell}
use magic_jigsaw.Dungeon.Grid.{
  cell_eq, cell_in_bounds, has_cell, cell_eq_self, cell_eq-ne, cell_in_bounds-InBounds,
  InBounds-cell_in_bounds, has_cell-In, In-has_cell,
}
use magic_jigsaw.Dungeon.Layout.Defs.{
  DungeonLayout, DungeonMonsterInput, puzzle_grid_in_range, check_monsters, check_treasure,
}
use magic_jigsaw.Dungeon.Layout.Spec.{IsPuzzle, IsPlaced, cells, HasTreasurePuzzle}

pub puzzle_grid_in_range-IsPuzzle :
    (cols rows seconds : ℤ)
    → puzzle_grid_in_range cols rows ≡ true
    → int_le seconds (pos 0) ≡ false
    → IsPuzzle cols rows seconds
unfolding puzzle_grid_in_range
puzzle_grid_in_range-IsPuzzle cols rows seconds h k = ground arith

pub IsPuzzle-puzzle :
    (cols rows seconds : ℤ)
    → IsPuzzle cols rows seconds
    → (puzzle_grid_in_range cols rows ≡ true) × (int_le seconds (pos 0) ≡ false)
unfolding puzzle_grid_in_range
IsPuzzle-puzzle cols rows seconds h = ground arith

not_equal : (a b : Cell) → cell_eq a b ≡ false → a ≢ b
not_equal a b h e = ground (arith, cell_eq_self b)

not-In : (c : Cell) (cs : List Cell) → has_cell c cs ≡ false → ¬ In c cs
not-In c cs h m = ground (arith, In-has_cell c cs m)

no_cell : (c : Cell) (cs : List Cell) → (¬ In c cs) → has_cell c cs ≡ false
no_cell c cs h = elim (Bool-cases (has_cell c cs)) [
  | inl e ↦ absurd (h (has_cell-In c cs e))
  | inr e ↦ e
]

-- No cell of these monsters is taken yet.
abbrev Free : List Cell → List DungeonMonsterInput → Type 0
Free taken [] = Unit
Free taken (m ∷ ms) = (¬ In m.cell taken) × Free taken ms

Free-nil : (ms : List DungeonMonsterInput) → Free [] ms
Free-nil [] = tt
Free-nil (m ∷ ms) = ((λ h. h), Free-nil ms)

Free-head :
    (c : Cell) (taken : List Cell) (ms : List DungeonMonsterInput)
    → Free (c ∷ taken) ms
    → (¬ In c (cells ms)) × Free taken ms
Free-head c taken [] f = ((λ h. h), tt)
Free-head c taken (m ∷ ms) f =
    let rest = Free-head c taken ms f.1 in
    ((λ h. elim h [ inl e ↦ f.0 (inl (sym e)) | inr h' ↦ rest.0 h' ]), ((λ h. f.0 (inr h)), rest.1))

Free-cons :
    (c : Cell) (taken : List Cell) (ms : List DungeonMonsterInput)
    → (¬ In c (cells ms))
    → Free taken ms
    → Free (c ∷ taken) ms
Free-cons c taken [] out f = tt
Free-cons c taken (m ∷ ms) out f = (
  (λ h. elim h [ inl e ↦ out (inl (sym e)) | inr h' ↦ f.0 h' ]),
  Free-cons c taken ms (λ h. out (inr h)) f.1,
)

module _ (l : DungeonLayout) where
  -- The tests that a monster passes when the loop goes on.
  check_monsters-head :
      (i : ℕ) (taken : List Cell) (m : DungeonMonsterInput) (ms : List DungeonMonsterInput)
      → check_monsters l i taken (m ∷ ms) ≡ none
      → (cell_in_bounds m.cell ≡ true)
        × (has_cell m.cell l.path ≡ true)
        × (cell_eq m.cell l.start ≡ false)
        × (cell_eq m.cell l.treasure ≡ false)
        × (has_cell m.cell taken ≡ false)
        × (puzzle_grid_in_range m.grid_cols m.grid_rows ≡ true)
        × (int_le m.play_seconds (pos 0) ≡ false)
        × (check_monsters l (i + 1) (m.cell ∷ taken) ms ≡ none)
  unfolding check_monsters
  check_monsters-head i taken m ms h = ground arith

  check_monsters_sound :
      (i : ℕ) (taken : List Cell) (ms : List DungeonMonsterInput)
      → check_monsters l i taken ms ≡ none
      → All (IsPlaced l) ms × Free taken ms × Distinct (cells ms)
  check_monsters_sound i taken [] h = (tt, tt, tt)
  check_monsters_sound i taken (m ∷ ms) h =
      let t = check_monsters-head i taken m ms h in
      let g = check_monsters_sound (i + 1) (m.cell ∷ taken) ms t.7 in
      let f = Free-head m.cell taken ms g.1 in
      let placed : IsPlaced l m = (
        cell_in_bounds-InBounds m.cell t.0,
        has_cell-In m.cell l.path t.1,
        not_equal m.cell l.start t.2,
        not_equal m.cell l.treasure t.3,
        puzzle_grid_in_range-IsPuzzle m.grid_cols m.grid_rows m.play_seconds t.5 t.6,
      ) in
      ((placed, g.0), (not-In m.cell taken t.4, f.1), (f.0, g.2))

  check_monsters_complete :
      (i : ℕ) (taken : List Cell) (ms : List DungeonMonsterInput)
      → All (IsPlaced l) ms
      → Free taken ms
      → Distinct (cells ms)
      → check_monsters l i taken ms ≡ none
  unfolding check_monsters
  check_monsters_complete i taken [] p f d = refl
  check_monsters_complete i taken (m ∷ ms) p f d =
      let (b, on, s, t, puzzle) = p.0 in
      let k = IsPuzzle-puzzle m.grid_cols m.grid_rows m.play_seconds puzzle in
      rw
        (
          InBounds-cell_in_bounds m.cell b,
          In-has_cell m.cell l.path on,
          cell_eq-ne m.cell l.start s,
          cell_eq-ne m.cell l.treasure t,
          no_cell m.cell taken f.0,
          k.0,
          k.1,
        )
        (check_monsters_complete (i + 1) (m.cell ∷ taken) ms p.1 (Free-cons m.cell taken ms d.0 f.1)
          d.1)

  -- Monsters that pass are placed, on cells of their own.
  pub check_monsters-IsPlaced :
      check_monsters l 0 [] l.monsters ≡ none
      → All (IsPlaced l) l.monsters × Distinct (cells l.monsters)
  check_monsters-IsPlaced h = let g = check_monsters_sound 0 [] l.monsters h in (g.0, g.2)

  -- Such monsters pass.
  pub IsPlaced-check_monsters :
      All (IsPlaced l) l.monsters
      → Distinct (cells l.monsters)
      → check_monsters l 0 [] l.monsters ≡ none
  IsPlaced-check_monsters p d = check_monsters_complete 0 [] l.monsters p (Free-nil l.monsters) d

  pub check_treasure-HasTreasurePuzzle : check_treasure l ≡ none → HasTreasurePuzzle l
  unfolding check_treasure puzzle_grid_in_range
  check_treasure-HasTreasurePuzzle h = ground arith

  pub HasTreasurePuzzle-check_treasure : HasTreasurePuzzle l → check_treasure l ≡ none
  unfolding check_treasure puzzle_grid_in_range
  HasTreasurePuzzle-check_treasure h = ground arith
