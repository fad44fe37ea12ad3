-- ===== src/Dungeon/Store.antt =====
-- internal/repository/dungeon.go: MoveDungeon, RetreatDungeon, CompleteDungeonMonster,
-- CompleteDungeon and what they read.
use magic_jigsaw.Prelude.{
  ◌==◌, length, ltb, ℕ, Bool, true, false, not, Option, none, some, List, [], ◌∷◌, ◌++◌, String,
  str_eq, ℤ, pos, int_eq, if◌then◌else◌,
}
use magic_jigsaw.Db.Schema.{Cell, DungeonRow, MonsterRow, ProgressRow}
use magic_jigsaw.Db.Action.{
  branch, monsters_remain, already_defeated, wrong_cell, Env, Action, Ending, commit, rollback,
  not_found, inactive, completed, invalid_move, pure, or_raise, raise_if, on_row, ◌>>=◌, ◌>>◌,
  execute, transaction,
}
use magic_jigsaw.Dungeon.Grid.{cell_eq, manhattan, has_cell}
use magic_jigsaw.Dungeon.Statements.{
  insert_treasure, count_monsters, select_monster_cell, select_dungeon, select_monster_at,
  select_progress, insert_progress, update_progress,
}
use magic_jigsaw.Points.Store.{get_unlock_points}
use magic_jigsaw.Points.Statements.{update_spend_points}

-- The loops over d.Path and over visited, which look for a cell.
unfoldable pub append_cell_dedup : List Cell → Cell → List Cell
append_cell_dedup visited c = if has_cell c visited then visited else visited ++ c ∷ []

-- The loops over defeated, which look for a monster's id as text.
unfoldable pub has_text : String → List String → Bool
has_text t [] = false
has_text t (x ∷ xs) = if str_eq x t then true else has_text t xs

pub record DungeonMoveResult : Type 0 where
  pub position : Cell
  pub energy : ℤ
  pub monster : Option (MonsterRow × String)

-- pgx.ErrNoRows: the progress of a player who has not moved yet.
unfoldable pub fresh_progress : ℕ → ℕ → Cell → ProgressRow
fresh_progress user_id dungeon_id start = record {
  user_id = user_id;
  dungeon_id = dungeon_id;
  position = start;
  prev_row = none;
  prev_col = none;
  defeated = [];
  visited = start ∷ [];
  completed = false;
}

-- UPDATE dungeon_progress SET prev_row = $3, prev_col = $4, pos_row = $5, pos_col = $6, visited = $7
unfoldable pub moved : Cell → Cell → List Cell → ProgressRow → ProgressRow
moved from target visited p = record p {
  prev_row = some from.row;
  prev_col = some from.col;
  position = target;
  visited = visited;
}

-- UPDATE dungeon_progress SET pos_row = $3, pos_col = $4, prev_row = NULL, prev_col = NULL
unfoldable pub retreated : Cell → ProgressRow → ProgressRow
retreated target p = record p { position = target; prev_row = none; prev_col = none }

-- UPDATE dungeon_progress SET defeated = $3
unfoldable pub with_defeated : List String → ProgressRow → ProgressRow
with_defeated defeated p = record p { defeated = defeated }

-- UPDATE dungeon_progress SET completed = true
unfoldable pub with_completed : ProgressRow → ProgressRow
with_completed p = record p { completed = true }

module _ (env : Env) where
  -- The row, with the treasure image's url.
  unfoldable pub get_dungeon_row : ℕ → Action (DungeonRow × String)
  unfolding execute
  get_dungeon_row id = do row ← execute env (select_dungeon id); or_raise row not_found

  unfoldable pub get_monster_at_cell : ℕ → Cell → Action (Option (MonsterRow × String))
  unfolding execute
  get_monster_at_cell dungeon_id cell = execute env (select_monster_at dungeon_id cell)

  -- The saved progress, or a new row at the start cell.
  unfoldable pub load_progress : ℕ → ℕ → Cell → Action ProgressRow
  unfolding execute
  load_progress user_id dungeon_id start = do
    saved ← execute env (select_progress user_id dungeon_id)
    on_row saved
        (do
          _ ← execute env (insert_progress (fresh_progress user_id dungeon_id start))
          pure (fresh_progress user_id dungeon_id start))
        pure

  -- The checks, the payment and the step from the progress `p`: the new balance and the defeated
  -- monsters, or `none` where the player cannot pay.
  unfoldable pub pay_and_step :
      ℕ → ℕ → Cell → ProgressRow → Action (Ending (Option (ℤ × List String)))
  unfolding execute
  pay_and_step user_id dungeon_id target p = do
    raise_if p.completed completed
    raise_if (not (int_eq (manhattan p.position target) (pos 1))) invalid_move
    paid ← execute env (update_spend_points user_id (pos 1))
    on_row paid (pure (rollback none)) λ balance. do
      _ ← execute env (
          update_progress user_id dungeon_id
            (moved p.position target (append_cell_dedup p.visited target)))
      pure (commit (some (balance, p.defeated)))

  -- The transaction of MoveDungeon.
  unfoldable pub move_transaction : ℕ → ℕ → Cell → Cell → Action (Ending (Option (ℤ × List String)))
  move_transaction user_id dungeon_id start target = do
    p ← load_progress user_id dungeon_id start
    pay_and_step user_id dungeon_id target p

  -- MoveDungeon: the result and `ok`.
  unfoldable pub move_dungeon : ℕ → ℕ → Cell → Action (Option DungeonMoveResult)
  move_dungeon user_id dungeon_id target = do
    d ← get_dungeon_row dungeon_id
    raise_if (not d.0.active) inactive
    raise_if (not (has_cell target d.0.path)) invalid_move
    done ← transaction env (move_transaction user_id dungeon_id d.0.start target)
    on_row done (pure none) λ paid. do
      found ← get_monster_at_cell dungeon_id target
      pure (
          some (record {
            position = target;
            energy = paid.0;
            monster = elim found [
              | none ↦ none
              | some m ↦ if has_text (env.uuid_string m.0.id) paid.1 then none else some m
            ];
          }))

abbrev pub both : Option ℤ → Option ℤ → Option Cell
both none c = none
both (some r) none = none
both (some r) (some c) = some (record { row = r; col = c })

-- A nullable UUID column, scanned: NULL becomes uuid.Nil.
abbrev pub uuid_of : Option ℕ → ℕ
uuid_of none = 0
uuid_of (some id) = id

module _ (env : Env) where
  -- Nothing to retreat to: the player stays, and tx.Rollback ends the transaction.
  unfoldable pub stay : ℕ → Cell → Action (Ending (Cell × Option ℤ))
  stay user_id c = do energy ← get_unlock_points env user_id; pure (rollback (c, some energy))

  -- The transaction of RetreatDungeon: the cell, and the energy where nothing is committed and it
  -- is read before the rollback.
  unfoldable pub retreat_transaction : ℕ → ℕ → Cell → Action (Ending (Cell × Option ℤ))
  unfolding execute stay
  retreat_transaction user_id dungeon_id start = do
    saved ← execute env (select_progress user_id dungeon_id)
    on_row saved (stay user_id start) λ p.
        on_row (both p.prev_row p.prev_col) (stay user_id p.position) λ c. do
          _ ← execute env (update_progress user_id dungeon_id (retreated c))
          pure (commit (c, none))

  -- RetreatDungeon: the cell and the energy.
  unfoldable pub retreat_dungeon : ℕ → ℕ → Action (Cell × ℤ)
  retreat_dungeon user_id dungeon_id = do
    d ← get_dungeon_row env dungeon_id
    done ← transaction env (retreat_transaction user_id dungeon_id d.0.start)
    on_row done.1 (do energy ← get_unlock_points env user_id; pure (done.0, energy))
        λ energy. pure (done.0, energy)

  unfoldable pub defeat_transaction : ℕ → ℕ → ℕ → Cell → Action (Ending (List String))
  unfolding execute
  defeat_transaction user_id dungeon_id monster_id cell = do
    saved ← execute env (select_progress user_id dungeon_id)
    p ← or_raise saved wrong_cell
    raise_if (not (cell_eq p.position cell)) wrong_cell
    raise_if (has_text (env.uuid_string monster_id) p.defeated) already_defeated
    let defeated = p.defeated ++ env.uuid_string monster_id ∷ []
    _ ← execute env (update_progress user_id dungeon_id (with_defeated defeated))
    pure (commit defeated)

  -- CompleteDungeonMonster: the defeated monsters.
  unfoldable pub complete_dungeon_monster : ℕ → ℕ → ℕ → Action (List String)
  complete_dungeon_monster user_id dungeon_id monster_id = do
    found ← execute env (select_monster_cell monster_id dungeon_id)
    cell ← or_raise found not_found
    transaction env (defeat_transaction user_id dungeon_id monster_id cell)

  unfoldable pub complete_transaction : ℕ → ℕ → DungeonRow → Action (Ending ℤ)
  unfolding execute
  complete_transaction user_id dungeon_id d = do
    saved ← execute env (select_progress user_id dungeon_id)
    p ← or_raise saved wrong_cell
    raise_if p.completed completed
    raise_if (not (cell_eq p.position d.treasure)) wrong_cell
    monsters ← execute env (count_monsters dungeon_id)
    raise_if (ltb (length p.defeated) monsters) monsters_remain
    _ ← execute env (update_progress user_id dungeon_id with_completed)
    branch (uuid_of d.treasure_image_id == 0) (pure (commit d.xp_reward)) do
      _ ← execute env (insert_treasure user_id dungeon_id (uuid_of d.treasure_image_id))
      pure (commit d.xp_reward)

  -- CompleteDungeon: the XP to award.
  unfoldable pub complete_dungeon : ℕ → ℕ → Action ℤ
  complete_dungeon user_id dungeon_id = do
    d ← get_dungeon_row env dungeon_id
    transaction env (complete_transaction user_id dungeon_id d.0)
