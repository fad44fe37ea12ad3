-- ===== src/Dungeon/Moves/Step.antt =====
-- What MoveDungeon commits, and that nothing else of it lasts.
use magic_jigsaw.Db.Writes.{Changed-update, Changed}
use magic_jigsaw.Prelude.{
  refl, Bool-cases, [], ◌∷◌, ◌++◌, subst, In, true, ◌⊎◌, int_eq-eq, ℕ, ◌≡◌, inl, inr, false, none,
  some, arith, ℤ, pos, String, List, Option-cases,
}
use magic_jigsaw.Db.Table.{select, update}
use magic_jigsaw.Db.Schema.{DungeonRow, Db, Cell, ProgressRow}
use magic_jigsaw.Db.Action.{Env, World, ok, commit}
use magic_jigsaw.Dungeon.Grid.{manhattan, has_cell, has_cell-In, In-has_cell}
use magic_jigsaw.Dungeon.Statements.{
  dungeon_is, insert_progress, progress_is, update_progress, select_progress,
}
use magic_jigsaw.Dungeon.Store.{
  pay_and_step, load_progress, fresh_progress, moved, append_cell_dedup,
}
use magic_jigsaw.Points.Statements.{update_spend_points}

-- A row put at the target, which names the cell before it as the previous one, has the target among the
-- visited cells, and is the same otherwise.
pub record StepsTo (p : ProgressRow) (target : Cell) (q q' : ProgressRow) : Type 0 where
  pub position : q'.position ≡ target
  pub prev_row : q'.prev_row ≡ some p.position.row
  pub prev_col : q'.prev_col ≡ some p.position.col
  pub visited :
      (In target p.visited × (q'.visited ≡ p.visited))
      ⊎ ((¬ In target p.visited) × (q'.visited ≡ p.visited ++ target ∷ []))
  pub rest : q ≡ record q' {
    position = q.position;
    prev_row = q.prev_row;
    prev_col = q.prev_col;
    visited = q.visited;
  }

append_cell_dedup_visits :
    (vs : List Cell) (c : Cell)
    → (In c vs × (append_cell_dedup vs c ≡ vs))
      ⊎ ((¬ In c vs) × (append_cell_dedup vs c ≡ vs ++ c ∷ []))
unfolding append_cell_dedup
append_cell_dedup_visits vs c = elim (Bool-cases (has_cell c vs)) [
  | inl t ↦ inl (has_cell-In c vs t, ground arith)
  | inr f ↦ inr ((λ m. ground (arith, f, In-has_cell c vs m)), ground arith)
]

moved-StepsTo :
    (p : ProgressRow) (target : Cell) (q : ProgressRow)
    → StepsTo p target q (moved p.position target (append_cell_dedup p.visited target) q)
unfolding moved
moved-StepsTo p target q = record {
  position = refl;
  prev_row = refl;
  prev_col = refl;
  visited = append_cell_dedup_visits p.visited target;
  rest = refl;
}

-- The step that the player pays for: from the saved progress `p` in the tables `d` to `d'`.
pub record Pays (user_id dungeon_id : ℕ) (target : Cell) (p : ProgressRow) (d : Db) (balance : ℤ)
    (d' : Db) : Type 0 where
  pub open_dungeon : p.completed ≡ false
  pub adjacent : manhattan p.position target ≡ pos 1
  pub paid : Db
  pub payment : update_spend_points user_id (pos 1) d ≡ some (some balance, paid)
  pub stored : d' ≡ record paid {
    dungeon_progress =
        update
          (progress_is user_id dungeon_id)
          (moved p.position target (append_cell_dedup p.visited target))
          paid.dungeon_progress;
  }
  pub effect :
      Changed
        (progress_is user_id dungeon_id)
        (StepsTo p target)
        paid.dungeon_progress
        d'.dungeon_progress

-- The progress that MoveDungeon goes on from: the saved row, or the row that it inserts at the start.
abbrev pub Loads : ℕ → ℕ → Cell → Db → ProgressRow → Db → Type 0
Loads user_id dungeon_id start d p d' =
    ((select (progress_is user_id dungeon_id) d.dungeon_progress ≡ some p) × (d' ≡ d))
    ⊎ ((select (progress_is user_id dungeon_id) d.dungeon_progress ≡ none)
        × (p ≡ fresh_progress user_id dungeon_id start)
        × (insert_progress p d ≡ some (tt, d')))

-- A committed move of the player, from the tables `d` to `d'`, which leaves `balance` points.
pub record Step (user_id dungeon_id : ℕ) (target : Cell) (d : Db) (balance : ℤ) (d' : Db)
    : Type 0 where
  pub row : DungeonRow
  pub found : select (dungeon_is dungeon_id) d.dungeons ≡ some row
  pub active : row.active ≡ true
  pub on_path : In target row.path
  pub progress : ProgressRow
  pub loaded : Db
  pub loads : Loads user_id dungeon_id row.start d progress loaded
  pub pays : Pays user_id dungeon_id target progress loaded balance d'

module _ (env : Env) (user_id dungeon_id : ℕ) where
  pub load_progress-Loads :
      (start : Cell) (w : World) (p : ProgressRow)
      → (load_progress env user_id dungeon_id start w).0 ≡ ok p
      → Loads user_id dungeon_id start w.db p (load_progress env user_id dungeon_id start w).1.db
  unfolding load_progress select_progress
  load_progress-Loads start w p h =
      elim (Option-cases (select (progress_is user_id dungeon_id) w.db.dungeon_progress)) [
        | inl e ↦
            elim (Option-cases (insert_progress (fresh_progress user_id dungeon_id start) w.db)) [
              | inl n ↦ absurd (ground arith)
              | inr ((t, d), n) ↦ inr (e, ground arith, ground arith)
            ]
        | inr (q, e) ↦ inl (ground arith, ground arith)
      ]

  pub pay_and_step-Pays :
      (target : Cell) (p : ProgressRow) (w : World) (balance : ℤ) (ds : List String)
      → (pay_and_step env user_id dungeon_id target p w).0 ≡ ok (commit (some (balance, ds)))
      → Pays user_id dungeon_id target p w.db balance
          (pay_and_step env user_id dungeon_id target p w).1.db
  unfolding pay_and_step update_progress
  pay_and_step-Pays target p w balance ds h =
      elim (Option-cases (update_spend_points user_id (pos 1) w.db)) [
        | inl n ↦ absurd (ground arith)
        | inr ((some b, d), n) ↦ record {
          open_dungeon = ground arith;
          adjacent = ground (arith, int_eq-eq (manhattan p.position target) (pos 1));
          paid = d;
          payment = ground arith;
          stored = ground arith;
          effect =
              subst (Changed (progress_is user_id dungeon_id) (StepsTo p target) d.dungeon_progress)
                (ground arith)
                (Changed-update (progress_is user_id dungeon_id) (StepsTo p target)
                  (moved p.position target (append_cell_dedup p.visited target)) d.dungeon_progress
                  (moved-StepsTo p target));
        }
        | inr ((none, d), n) ↦ absurd (ground arith)
      ]
