-- ===== src/Dungeon/Walks/Moving.antt =====
-- MoveDungeon keeps the progress sound.
use magic_jigsaw.Prelude.{
  ==_refl, pos, true, subst, sym, ◌++◌, ℕ, ◌≡◌, Option, some, ℤ, [], ◌∷◌, In, inl, inr, arith,
}
use magic_jigsaw.Db.Schema.{Db, Cell, ProgressRow}
use magic_jigsaw.Dungeon.Statements.{progress_is, insert_progress}
use magic_jigsaw.Dungeon.Store.{append_cell_dedup, moved, fresh_progress}
use magic_jigsaw.Points.Statements.{update_spend_points}
use magic_jigsaw.Db.Action.{Env, World}
use magic_jigsaw.Dungeon.Walks.Sound.{Sound, monster_names}
use magic_jigsaw.Db.Table.{select-append, select, All-select}
use magic_jigsaw.Dungeon.Statements.{dungeon_is, progress_is}
use magic_jigsaw.Dungeon.Moves.Step.{Loads, Step}
use magic_jigsaw.Dungeon.Moves.Outcome.{move_dungeon-MoveOutcome}
use magic_jigsaw.Dungeon.Store.{move_dungeon}
use magic_jigsaw.Db.Schema.{DungeonRow}
use magic_jigsaw.Dungeon.Walks.Steps.{Follows-moved}
use magic_jigsaw.Dungeon.Walks.Sound.{RowsSound}
use magic_jigsaw.Dungeon.Walks.Rows.{
  moved-KeepsKey, saved-Follows, RowsSound-update, RowsSound-fresh,
}

-- The payment changes the users alone.
pub update_spend_points-keeps :
    (id : ℕ) (amount : ℤ) (d : Db) (o : Option ℤ) (d' : Db)
    → update_spend_points id amount d ≡ some (o, d')
    → (d'.dungeon_progress ≡ d.dungeon_progress)
      × (d'.dungeons ≡ d.dungeons)
      × (d'.dungeon_monsters ≡ d.dungeon_monsters)
unfolding update_spend_points
update_spend_points-keeps id amount d o d' h = ground arith

pub insert_progress-keeps :
    (p : ProgressRow) (d d' : Db)
    → insert_progress p d ≡ some (tt, d')
    → (d'.dungeon_progress ≡ d.dungeon_progress ++ p ∷ [])
      × (d'.dungeons ≡ d.dungeons)
      × (d'.dungeon_monsters ≡ d.dungeon_monsters)
unfolding insert_progress
insert_progress-keeps p d d' h = ground arith

fresh_is :
    (user_id dungeon_id : ℕ) (start : Cell)
    → progress_is user_id dungeon_id (fresh_progress user_id dungeon_id start) ≡ true
unfolding fresh_progress
fresh_is user_id dungeon_id start = ground (arith, ==_refl user_id, ==_refl dungeon_id)

module _ (env : Env) (user_id dungeon_id : ℕ) (target : Cell) where
  -- What `Loads` gives: a saved row for this player, in sound tables.
  record Ready (d0 : Db) (p : ProgressRow) (d : Db) : Type 0 where
    saved : select (progress_is user_id dungeon_id) d.dungeon_progress ≡ some p
    rows : RowsSound env d0.dungeons d0.dungeon_monsters d.dungeon_progress
    dungeons : d.dungeons ≡ d0.dungeons
    monsters : d.dungeon_monsters ≡ d0.dungeon_monsters

  Loads-Ready :
      (d0 : Db) (row : DungeonRow) (p : ProgressRow) (d : Db)
      → Sound env d0
      → select (dungeon_is dungeon_id) d0.dungeons ≡ some row
      → Loads user_id dungeon_id row.start d0 p d
      → Ready d0 p d
  Loads-Ready d0 row p d s found (inl (e, same)) = record {
    saved = rw same e;
    rows = rw same s.rows;
    dungeons = rw same;
    monsters = rw same;
  }
  Loads-Ready d0 row p d s found (inr (e, fresh, inserted)) =
      let k = insert_progress-keeps p d0 d inserted in
      let start =
        All-select (λ (r : DungeonRow). In r.start r.path) (dungeon_is dungeon_id) d0.dungeons row
          s.starts found in
      let rows =
        RowsSound-fresh env d0.dungeons d0.dungeon_monsters user_id dungeon_id row found
          d0.dungeon_progress s.rows e start in
      record {
        saved =
            rw (k.0, fresh)
              (select-append (progress_is user_id dungeon_id) d0.dungeon_progress
                (fresh_progress user_id dungeon_id row.start) e
                (fresh_is user_id dungeon_id row.start));
        rows = rw (k.0, fresh) rows;
        dungeons = k.1;
        monsters = k.2;
      }

  Step-Sound :
      (d0 : Db) (balance : ℤ) (d' : Db)
      → Sound env d0
      → Step user_id dungeon_id target d0 balance d'
      → Sound env d'
  Step-Sound d0 balance d' s t =
      let r = Loads-Ready d0 t.row t.progress t.loaded s t.found t.loads in
      let k =
        update_spend_points-keeps user_id (pos 1) t.loaded (some balance) t.pays.paid
          t.pays.payment in
      let f =
        saved-Follows env d0.dungeons d0.dungeon_monsters user_id dungeon_id t.row t.found
          t.loaded.dungeon_progress t.progress r.rows r.saved in
      let rows =
        RowsSound-update env d0.dungeons d0.dungeon_monsters user_id dungeon_id t.row t.found
          (moved t.progress.position target (append_cell_dedup t.progress.visited target))
          t.loaded.dungeon_progress t.progress
          (moved-KeepsKey t.progress.position target (append_cell_dedup t.progress.visited target))
          r.rows r.saved
          (Follows-moved t.row.path (monster_names env dungeon_id d0.dungeon_monsters) t.progress
            target f t.on_path) in
      record {
        rows = rw (t.pays.stored, k.0, k.1, k.2, r.dungeons, r.monsters) rows;
        starts = rw (t.pays.stored, k.1, r.dungeons) s.starts;
      }

-- However its statements go, MoveDungeon keeps the saved progress sound.
pub move_dungeon-Sound :
    (env : Env) (user_id dungeon_id : ℕ) (target : Cell) (w : World)
    → Sound env w.db
    → Sound env (move_dungeon env user_id dungeon_id target w).1.db
move_dungeon-Sound env user_id dungeon_id target w s =
    elim (move_dungeon-MoveOutcome env user_id dungeon_id target w) [
      | inl (same, _) ↦ subst (Sound env) (sym same) s
      | inr (balance, t, _) ↦ Step-Sound env user_id dungeon_id target w.db balance _ s t
    ]
