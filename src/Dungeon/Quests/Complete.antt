-- ===== src/Dungeon/Quests/Complete.antt =====
-- Every way in which CompleteDungeon can end.
use magic_jigsaw.Db.Writes.{Changed-update, Placed, Changed}
use magic_jigsaw.Prelude.{
  none, Option, List, refl, ◌≢◌, ℕ, ◌≡◌, ◌⊎◌, inl, inr, some, ℤ, String, true, false, arith,
  Bool-cases, Option-cases, subst, sym, ◌∙◌, ◌≤◌, length, ◌==◌,
}
use magic_jigsaw.Db.Table.{select, select_all, update, exists}
use magic_jigsaw.Db.Schema.{Db, DungeonRow, ProgressRow}
use magic_jigsaw.Db.Action.{
  ◌>>=◌, Env, World, Error, Ending, ok, err, commit, rollback, transaction, begun,
  transaction_outcome, Result-cases, Action,
}
use magic_jigsaw.Dungeon.Statements.{
  dungeon_is, progress_is, monster_of, select_progress, update_progress, count_monsters,
  insert_treasure, treasure_is,
}
use magic_jigsaw.Dungeon.Moves.Outcome.{get_dungeon_row-keeps, get_dungeon_row-found}
use magic_jigsaw.Dungeon.Grid.{cell_eq-eq}
use magic_jigsaw.Dungeon.Store.{
  get_dungeon_row, uuid_of, with_completed, complete_transaction, complete_dungeon,
}

-- A row marked as completed, and the same otherwise.
pub record Marked (p p' : ProgressRow) : Type 0 where
  pub done : p'.completed ≡ true
  pub rest : p ≡ record p' { completed = p.completed }

with_completed-Marked : (p : ProgressRow) → Marked p (with_completed p)
unfolding with_completed
with_completed-Marked p = record { done = refl; rest = refl }

-- The player's gallery has the treasure's image, or the entry that it had for the dungeon before; without
-- a treasure it is as it was.
abbrev pub Unlocked : ℕ → ℕ → DungeonRow → Db → Db → Type 0
Unlocked user_id dungeon_id row d d' =
    ((uuid_of row.treasure_image_id ≡ 0)
      × (d'.dungeon_treasure_unlocks ≡ d.dungeon_treasure_unlocks))
    ⊎ ((image : ℕ) × (row.treasure_image_id ≡ some image)
        × Placed (treasure_is user_id dungeon_id)
            (record { user_id = user_id; dungeon_id = dungeon_id; image_id = image })
            d.dungeon_treasure_unlocks d'.dungeon_treasure_unlocks)

-- The player at the treasure, with no fewer defeated monsters than the dungeon has, is marked.
pub record Completes (user_id dungeon_id : ℕ) (row : DungeonRow) (d d' : Db) : Type 0 where
  pub progress : ProgressRow
  pub saved : select (progress_is user_id dungeon_id) d.dungeon_progress ≡ some progress
  pub first : progress.completed ≡ false
  pub there : progress.position ≡ row.treasure
  pub enough :
      length (select_all (monster_of dungeon_id) d.dungeon_monsters) ≤ length progress.defeated
  pub stored :
      d'.dungeon_progress
      ≡ update (progress_is user_id dungeon_id) with_completed d.dungeon_progress
  pub effect :
      Changed (progress_is user_id dungeon_id) Marked d.dungeon_progress d'.dungeon_progress
  pub dungeons : d'.dungeons ≡ d.dungeons
  pub monsters : d'.dungeon_monsters ≡ d.dungeon_monsters
  pub users : d'.users ≡ d.users
  pub unlocked : Unlocked user_id dungeon_id row d d'

insert_treasure-Placed :
    (user_id dungeon_id image_id : ℕ) (d d' : Db)
    → insert_treasure user_id dungeon_id image_id d ≡ some (tt, d')
    → Placed
        (treasure_is user_id dungeon_id)
        (record { user_id = user_id; dungeon_id = dungeon_id; image_id = image_id })
        d.dungeon_treasure_unlocks
        d'.dungeon_treasure_unlocks
      × (d'.dungeon_progress ≡ d.dungeon_progress)
      × (d'.dungeons ≡ d.dungeons)
      × (d'.dungeon_monsters ≡ d.dungeon_monsters)
      × (d'.users ≡ d.users)
unfolding insert_treasure
insert_treasure-Placed user_id dungeon_id image_id d d' h =
    elim (Bool-cases (exists (treasure_is user_id dungeon_id) d.dungeon_treasure_unlocks)) [
      | inl t ↦ (inl (t, ground arith), ground arith, ground arith, ground arith, ground arith)
      | inr f ↦ (inr (f, ground arith), ground arith, ground arith, ground arith, ground arith)
    ]

-- The image of a treasure, where the column has one.
uuid_of-some : (o : Option ℕ) → (uuid_of o == 0) ≡ false → o ≡ some (uuid_of o)
uuid_of-some none h = absurd (ground arith)
uuid_of-some (some i) h = refl

module _ (env : Env) (user_id dungeon_id : ℕ) where
  abbrev marked : Db → Db
  marked d = record d {
    dungeon_progress = update (progress_is user_id dungeon_id) with_completed d.dungeon_progress;
  }

  effect_of :
      (ps ps' : List ProgressRow)
      → ps' ≡ update (progress_is user_id dungeon_id) with_completed ps
      → Changed (progress_is user_id dungeon_id) Marked ps ps'
  effect_of ps ps' e = subst (Changed (progress_is user_id dungeon_id) Marked ps) (sym e) (
      Changed-update (progress_is user_id dungeon_id) Marked with_completed ps
        with_completed-Marked)

  complete_transaction-Completes :
      (row : DungeonRow) (w : World) (xp : ℤ)
      → (complete_transaction env user_id dungeon_id row w).0 ≡ ok (commit xp)
      → (xp ≡ row.xp_reward)
        × Completes user_id dungeon_id row w.db
            (complete_transaction env user_id dungeon_id row w).1.db
  unfolding complete_transaction select_progress update_progress count_monsters
  complete_transaction-Completes row w xp h =
      elim (Option-cases (select (progress_is user_id dungeon_id) w.db.dungeon_progress)) [
        | inl n ↦ absurd (ground arith)
        | inr (p, n) ↦ elim (Bool-cases (uuid_of row.treasure_image_id == 0)) [
          | inl z ↦ (
            ground arith,
            record {
              progress = p;
              saved = n;
              first = ground arith;
              there = ground (arith, cell_eq-eq p.position row.treasure);
              enough = ground arith;
              stored = ground arith;
              effect =
                  effect_of w.db.dungeon_progress
                    (complete_transaction env user_id dungeon_id row w).1.db.dungeon_progress
                    (ground arith);
              dungeons = ground arith;
              monsters = ground arith;
              users = ground arith;
              unlocked = inl (ground arith, ground arith);
            },
          )
          | inr z ↦
              elim (Option-cases (
                insert_treasure user_id dungeon_id (uuid_of row.treasure_image_id) (marked w.db))) [
                  | inl i ↦ absurd (ground arith)
                  | inr ((t, d), i) ↦
                      let k =
                        insert_treasure-Placed user_id dungeon_id (uuid_of row.treasure_image_id)
                          (marked w.db) d i in
                      let ended : (complete_transaction env user_id dungeon_id row w).1.db ≡ d =
                        ground arith in
                      (
                        ground arith,
                        subst (Completes user_id dungeon_id row w.db) (sym ended) (record {
                          progress = p;
                          saved = n;
                          first = ground arith;
                          there = ground (arith, cell_eq-eq p.position row.treasure);
                          enough = ground arith;
                          stored = k.1;
                          effect = effect_of w.db.dungeon_progress d.dungeon_progress k.1;
                          dungeons = k.2;
                          monsters = k.3;
                          users = k.4;
                          unlocked = inr (
                            uuid_of row.treasure_image_id,
                            uuid_of-some row.treasure_image_id z,
                            k.0,
                          );
                        }),
                      )
                ]
        ]
      ]

  complete_transaction-rollback :
      (row : DungeonRow) (w : World) (xp : ℤ)
      → (complete_transaction env user_id dungeon_id row w).0 ≢ ok (rollback xp)
  unfolding complete_transaction select_progress update_progress count_monsters
  complete_transaction-rollback row w xp h = ground arith

  module _ (w : World) where
    -- CompleteDungeon changes no table and returns an error, or it completes the dungeon for the
    -- player and returns its reward.
    abbrev pub CompleteOutcome : Type 0
    CompleteOutcome =
        let (r, w') = complete_dungeon env user_id dungeon_id w in
        ((w'.db ≡ w.db) × ((e : Error) × (r ≡ err e)))
        ⊎ ((row : DungeonRow) × (select (dungeon_is dungeon_id) w.db.dungeons ≡ some row)
            × (r ≡ ok row.xp_reward)
            × Completes user_id dungeon_id row w.db w'.db)

    module _ (row : DungeonRow) (url : String)
        (n : (get_dungeon_row env dungeon_id w).0 ≡ ok (row, url)) where
      abbrev body : Action (Ending ℤ)
      body = complete_transaction env user_id dungeon_id row

      abbrev loaded : World
      loaded = (get_dungeon_row env dungeon_id w).1

      same : complete_dungeon env user_id dungeon_id w ≡ transaction env body loaded
      unfolding complete_dungeon
      same = rw (n, ◌>>=◌)

      loaded_row : CompleteOutcome
      loaded_row = rw same (elim (transaction_outcome env body loaded) [
        | inl a ↦ inl (a.unchanged ∙ get_dungeon_row-keeps env dungeon_id w, (a.error, a.returned))
        | inr (inl r) ↦
            absurd (complete_transaction-rollback row (begun env body loaded) r.value r.ended)
        | inr (inr t) ↦
            let k = complete_transaction-Completes row (begun env body loaded) t.value t.ended in
            inr (
              row,
              get_dungeon_row-found env dungeon_id w row url n,
              ground (arith, t.returned, k.0),
              subst (λ d. Completes user_id dungeon_id row d (transaction env body loaded).1.db)
                  (get_dungeon_row-keeps env dungeon_id w)
                  (subst (Completes user_id dungeon_id row loaded.db) (sym t.done) k.1),
            )
      ])

    -- However its statements go, CompleteDungeon either changes no table and returns an error, or the
    -- player had not completed the dungeon, stood at its treasure with at least as many defeated
    -- monsters as the dungeon has, the player's row is marked as completed and is the same otherwise, no
    -- other row and no user is changed, the treasure's image, if there is one, is added to the player's
    -- gallery, unless that has an entry for the dungeon, which stays, and the dungeon's reward is returned.
    pub complete_dungeon-CompleteOutcome : CompleteOutcome
    unfolding complete_dungeon
    complete_dungeon-CompleteOutcome = elim (Result-cases (get_dungeon_row env dungeon_id w).0) [
      | inl (e, n) ↦ inl (ground (arith, get_dungeon_row-keeps env dungeon_id w), (e, ground arith))
      | inr ((row, url), n) ↦ loaded_row row url n
    ]
