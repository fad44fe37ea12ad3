-- ===== src/Tests/Handler.antt =====
-- A completed dungeon whose reward is lost: the statement of AddXP fails.
use magic_jigsaw.Prelude.{◌≡◌, refl, pos, true, ◌==◌}
use magic_jigsaw.Db.Action.{Env, ok, execute, transaction, finish}
use magic_jigsaw.Dungeon.Statements.{
  select_dungeon, select_progress, count_monsters, update_progress, insert_treasure,
}
use magic_jigsaw.Dungeon.Grid.{cell_eq}
use magic_jigsaw.Dungeon.Store.{get_dungeon_row, complete_transaction, complete_dungeon}
use magic_jigsaw.Dungeon.Handler.{
  done, response, handle_complete_dungeon, handle_complete_dungeon_loses_reward,
}
use magic_jigsaw.Tests.World.{driver, goal}

-- The eighth call to the driver fails, the one after the commit.
abbrev flaky : Env
flaky = driver (λ n. n == 7)

flaky_rewards : (complete_dungeon flaky 1 3 goal).0 ≡ ok (pos 50)
unfolding complete_dungeon get_dungeon_row select_dungeon execute transaction finish
    complete_transaction select_progress count_monsters update_progress insert_treasure cell_eq
flaky_rewards = refl

flaky_fails_next : flaky.fails (complete_dungeon flaky 1 3 goal).1.clock ≡ true
unfolding complete_dungeon get_dungeon_row select_dungeon execute transaction finish
    complete_transaction select_progress count_monsters update_progress insert_treasure cell_eq
flaky_fails_next = refl

handle_complete_dungeon_loses_reward_example :
    let (reply, w') = handle_complete_dungeon flaky 1 3 goal in
    (reply ≡ done (response (pos 0, pos 0))) × (w'.db.users ≡ goal.db.users)
handle_complete_dungeon_loses_reward_example =
    handle_complete_dungeon_loses_reward flaky 1 3 goal (pos 50) flaky_rewards refl flaky_fails_next
