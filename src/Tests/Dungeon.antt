-- ===== src/Tests/Dungeon.antt =====
-- Walks through the crypt.
use magic_jigsaw.Prelude.{
  Distinct, ◌≡◌, ◌≢◌, refl, inl, inr, some, [], ◌∷◌, pos, false, arith, All, In,
}
use magic_jigsaw.Db.Table.{select}
use magic_jigsaw.Db.Schema.{DungeonRow, ProgressRow}
use magic_jigsaw.Db.Action.{ok, execute, transaction, finish}
use magic_jigsaw.Dungeon.Statements.{
  select_dungeon, select_progress, count_monsters, update_progress, insert_treasure, dungeon_is,
  progress_is,
}
use magic_jigsaw.Dungeon.Grid.{cell_eq}
use magic_jigsaw.Dungeon.Store.{get_dungeon_row, complete_transaction, complete_dungeon}
use magic_jigsaw.Dungeon.Walks.Sound.{Follows, Sound, monster_names}
use magic_jigsaw.Dungeon.Walks.Questing.{complete_dungeon_reward}
use magic_jigsaw.Dungeon.Moves.Outcome.{move_dungeon-MoveOutcome, MoveOutcome}
use magic_jigsaw.Dungeon.Quests.Defeat.{complete_dungeon_monster-DefeatOutcome, DefeatOutcome}
use magic_jigsaw.Dungeon.Quests.Complete.{complete_dungeon-CompleteOutcome, CompleteOutcome}
use magic_jigsaw.Dungeon.History.{moves, retreats, defeats, completes, run, run-Sound, reward_once}
use magic_jigsaw.Tests.World.{env, at, crypt, corridor, outset, facing, at_treasure, goal}

-- At the treasure, with the monster defeated, the reward is the crypt's.
goal_rewarded : (complete_dungeon env 1 3 goal).0 ≡ ok (pos 50)
unfolding complete_dungeon get_dungeon_row select_dungeon execute transaction finish
    complete_transaction select_progress count_monsters update_progress insert_treasure cell_eq
goal_rewarded = refl

reward_once_example :
    (complete_dungeon env 1 3 (
      run env
        (completes 1 3 ∷ retreats 1 3 ∷ moves 2 3 (at 0 1) ∷ [])
        (complete_dungeon env 1 3 goal).1)).0
    ≢ ok (pos 50)
reward_once_example =
    reward_once env 1 3 goal (pos 50) (pos 50)
      (completes 1 3 ∷ retreats 1 3 ∷ moves 2 3 (at 0 1) ∷ []) goal_rewarded

outset-Sound : Sound env outset.db
outset-Sound = record { rows = record { each = tt; once = λ u i. tt }; starts = (inl refl, tt) }

run-Sound_example :
    Sound env (run env (moves 1 3 (at 0 1) ∷ defeats 1 3 9 ∷ completes 1 3 ∷ []) outset).db
run-Sound_example =
    run-Sound env (moves 1 3 (at 0 1) ∷ defeats 1 3 9 ∷ completes 1 3 ∷ []) outset outset-Sound

corridor-Distinct : Distinct corridor
corridor-Distinct =
    ((λ m. ground arith), ((λ m. ground arith), ((λ m. ground arith), ((λ m. m), tt))))

goal-Follows : Follows corridor ("skeleton" ∷ []) at_treasure
goal-Follows = record {
  position = inr (inr (inr (inl refl)));
  previous = inr (inr (inl refl));
  seen = inr (inr (inr (inl refl)));
  previous_seen = inr (inr (inl refl));
  visited = (inl refl, (inr (inl refl), (inr (inr (inl refl)), (inr (inr (inr (inl refl))), tt))));
  visited_once = corridor-Distinct;
  defeated = (inl refl, tt);
  defeated_once = ((λ m. m), tt);
}

goal-Sound : Sound env goal.db
goal-Sound = record {
  rows = record { each = ((crypt, refl, goal-Follows), tt); once = λ u i. (inr refl, tt) };
  starts = (inl refl, tt);
}

complete_dungeon_reward_example :
    (row : DungeonRow) × (p : ProgressRow) × (select (dungeon_is 3) goal.db.dungeons ≡ some row)
    × (select (progress_is 1 3) goal.db.dungeon_progress ≡ some p)
    × (pos 50 ≡ row.xp_reward)
    × (p.completed ≡ false)
    × (p.position ≡ row.treasure)
    × All (λ t. In t p.defeated) (monster_names env 3 goal.db.dungeon_monsters)
complete_dungeon_reward_example =
    complete_dungeon_reward env 1 3 goal goal-Sound (pos 50) goal_rewarded

move_dungeon-MoveOutcome_example : MoveOutcome env 1 3 (at 0 1) outset
move_dungeon-MoveOutcome_example = move_dungeon-MoveOutcome env 1 3 (at 0 1) outset

complete_dungeon_monster-DefeatOutcome_example : DefeatOutcome env 1 3 9 facing
complete_dungeon_monster-DefeatOutcome_example =
    complete_dungeon_monster-DefeatOutcome env 1 3 9 facing

complete_dungeon-CompleteOutcome_example : CompleteOutcome env 1 3 goal
complete_dungeon-CompleteOutcome_example = complete_dungeon-CompleteOutcome env 1 3 goal
