-- ===== src/Tests/Levels.antt =====
-- A level that is started, lost, started again and cleared; and levels from XP.
use magic_jigsaw.Prelude.{ℕ, arith, ◌≡◌, ◌≢◌, refl, inr, [], ◌∷◌, pos, true, false}
use magic_jigsaw.Db.Action.{World, ok, execute}
use magic_jigsaw.Points.Statements.{fits_int4}
use magic_jigsaw.Expedition.Play.{
  complete_expedition_level, fail_expedition_level, update_cleared, update_lost,
}
use magic_jigsaw.Expedition.Clears.{starts, clears, loses, play, no_second_clear}
use magic_jigsaw.Points.Levels.{climb, xp_for_level_up, level_from_xp, Reaches, level_from_xp_lem}
use magic_jigsaw.Tests.World.{env, tables}

abbrev begun_level : World
begun_level = record {
  db = record (tables []) {
    expedition_progress =
        record {
          user_id = 1;
          level_index = pos 5;
          status = "in_progress";
          elapsed_seconds = pos 0;
          correct_pieces = pos 10;
        }
        ∷ [];
  };
  clock = 0;
}

first_clear : (complete_expedition_level env 1 (pos 5) (pos 90) (pos 24) begun_level).0 ≡ ok true
unfolding complete_expedition_level execute update_cleared fits_int4
first_clear = refl

-- A lost level cannot be cleared before it is started again.
lost_then_cleared :
    (complete_expedition_level env 1
      (pos 5)
      (pos 90)
      (pos 24)
      (play env (loses 1 (pos 5) (pos 3) ∷ []) begun_level)).0
    ≡ ok false
unfolding complete_expedition_level execute update_cleared fits_int4 fail_expedition_level
    update_lost
lost_then_cleared = refl

no_second_clear_example :
    (complete_expedition_level env 1 (pos 5) (pos 80) (pos 24) (
      play env
        (starts 1 (pos 5) ∷ clears 2 (pos 5) (pos 9) (pos 9) ∷ [])
        (complete_expedition_level env 1 (pos 5) (pos 90) (pos 24) begun_level).1)).0
    ≢ ok true
no_second_clear_example =
    no_second_clear env 1 (pos 5) begun_level (pos 90) (pos 24) (pos 80) (pos 24)
      (starts 1 (pos 5) ∷ clears 2 (pos 5) (pos 9) (pos 9) ∷ []) (inr refl, tt) first_clear

-- 100 XP give level 2, and 150 more do not give level 3.
abbrev two_fifty : ℕ
two_fifty = 250

level_of_two_fifty : level_from_xp (pos two_fifty) ≡ (2, pos 150, 400)
unfolding level_from_xp climb xp_for_level_up
level_of_two_fifty = refl

level_from_xp_lem_example :
    let (level, remaining, next) = level_from_xp (pos two_fifty) in
    (into : ℕ) × (remaining ≡ pos into)
    × Reaches 0 two_fifty level into
    × (next ≡ xp_for_level_up level)
level_from_xp_lem_example = level_from_xp_lem two_fifty (omega arith)
