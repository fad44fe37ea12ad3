-- ===== src/Dungeon/Walks/Questing.antt =====
-- RetreatDungeon, CompleteDungeonMonster and CompleteDungeon keep the progress sound; a dungeon is
-- completed only when all its monsters are defeated.
use magic_jigsaw.Prelude.{
  ap, ◌==◌, ℕ, ◌≡◌, inl, inr, some, ℤ, List, [], ◌∷◌, String, false, refl, arith, Bool-cases, subst,
  sym, length, All, In,
}
use magic_jigsaw.Lists.{pigeonhole, In-All}
use magic_jigsaw.Db.Table.{select, select_all, update, All-select, select-passes}
use magic_jigsaw.Db.Schema.{Db, Cell, DungeonRow, ProgressRow, MonsterRow}
use magic_jigsaw.Db.Action.{Env, World, ok}
use magic_jigsaw.Dungeon.Statements.{dungeon_is, progress_is, monster_of, monster_is}
use magic_jigsaw.Dungeon.Store.{
  retreated, with_defeated, with_completed, retreat_dungeon, complete_dungeon_monster,
  complete_dungeon,
}
use magic_jigsaw.Dungeon.Walks.Sound.{Follows, RowSound, Sound, names_of, monster_names}
use magic_jigsaw.Dungeon.Walks.Steps.{Follows-retreated, Follows-defeated, Follows-completed}
use magic_jigsaw.Dungeon.Walks.Rows.{
  KeepsKey, retreated-KeepsKey, with_defeated-KeepsKey, with_completed-KeepsKey, saved-Follows,
  RowsSound-update, progress_is-dungeon,
}
use magic_jigsaw.Dungeon.Quests.Retreat.{Retreats, retreat_dungeon-RetreatOutcome}
use magic_jigsaw.Dungeon.Quests.Defeat.{Defeats, complete_dungeon_monster-DefeatOutcome}
use magic_jigsaw.Dungeon.Quests.Complete.{Completes, complete_dungeon-CompleteOutcome}

-- A monster of a dungeon is among those that the dungeon counts.
named :
    (f : ℕ → String) (id dungeon_id : ℕ) (ms : List MonsterRow) (m : MonsterRow)
    → select (monster_is id dungeon_id) ms ≡ some m
    → In (f id) (names_of f (select_all (monster_of dungeon_id) ms))
named f id dungeon_id [] m e = absurd (ground arith)
named f id dungeon_id (x ∷ ms) m e = elim (Bool-cases (monster_of dungeon_id x)) [
  | inl mine ↦ elim (Bool-cases (x.id == id)) [
    | inl same ↦ rw mine (inl (ap f (sym (ground arith))))
    | inr other ↦ rw mine (inr (named f id dungeon_id ms m (ground arith)))
  ]
  | inr other ↦ rw other (named f id dungeon_id ms m (ground arith))
]

length-names_of : (f : ℕ → String) (ms : List MonsterRow) → length (names_of f ms) ≡ length ms
length-names_of f [] = refl
length-names_of f (m ∷ ms) = omega (arith, length-names_of f ms)

-- The dungeon of a saved row exists.
saved-found :
    (env : Env) (user_id dungeon_id : ℕ) (d : Db) (p : ProgressRow)
    → Sound env d
    → select (progress_is user_id dungeon_id) d.dungeon_progress ≡ some p
    → (row : DungeonRow) × (select (dungeon_is dungeon_id) d.dungeons ≡ some row)
saved-found env user_id dungeon_id d p s e =
    let r =
      All-select (RowSound env d.dungeons d.dungeon_monsters) (progress_is user_id dungeon_id)
        d.dungeon_progress p s.rows.each e in
    let k =
      progress_is-dungeon user_id dungeon_id p
        (select-passes (progress_is user_id dungeon_id) d.dungeon_progress p e) in
    (r.0, subst (λ i. select (dungeon_is i) d.dungeons ≡ some r.0) k r.1)

module _ (env : Env) (user_id dungeon_id : ℕ) (d : Db) (s : Sound env d) where
  -- Sound progress in which the player's saved row is changed to one that follows the path.
  changed :
      (f : ProgressRow → ProgressRow) (p : ProgressRow) (d' : Db)
      → KeepsKey f
      → select (progress_is user_id dungeon_id) d.dungeon_progress ≡ some p
      → ((path : List Cell)
          → Follows path (monster_names env dungeon_id d.dungeon_monsters) p
          → Follows path (monster_names env dungeon_id d.dungeon_monsters) (f p))
      → d'.dungeon_progress ≡ update (progress_is user_id dungeon_id) f d.dungeon_progress
      → d'.dungeons ≡ d.dungeons
      → d'.dungeon_monsters ≡ d.dungeon_monsters
      → Sound env d'
  changed f p d' k e h ps ds ms =
      let (row, found) = saved-found env user_id dungeon_id d p s e in
      let rows =
        RowsSound-update env d.dungeons d.dungeon_monsters user_id dungeon_id row found f
          d.dungeon_progress p k s.rows e
          (h row.path (
            saved-Follows env d.dungeons d.dungeon_monsters user_id dungeon_id row found
              d.dungeon_progress p s.rows e)) in
      record { rows = rw (ps, ds, ms) rows; starts = rw ds s.starts }

  Retreats-Sound : (c : Cell) (d' : Db) → Retreats user_id dungeon_id d c d' → Sound env d'
  Retreats-Sound c d' r =
      changed (retreated c) r.progress d' (retreated-KeepsKey c) r.saved
        (λ path f. Follows-retreated path _ r.progress c r.previous f) (rw r.stored) (rw r.stored)
        (rw r.stored)

  Defeats-Sound :
      (monster_id : ℕ) (ds : List String) (d' : Db)
      → Defeats env user_id dungeon_id monster_id d ds d'
      → Sound env d'
  Defeats-Sound monster_id ds d' r =
      changed (with_defeated ds) r.progress d' (with_defeated-KeepsKey ds) r.saved
        (λ path f. rw r.added (
          Follows-defeated path _ r.progress (env.uuid_string monster_id)
            (named env.uuid_string monster_id dungeon_id d.dungeon_monsters r.monster r.known) r.new
            f))
        (rw r.stored) (rw r.stored) (rw r.stored)

  Completes-Sound :
      (row : DungeonRow) (d' : Db) → Completes user_id dungeon_id row d d' → Sound env d'
  Completes-Sound row d' r =
      changed with_completed r.progress d' with_completed-KeepsKey r.saved
        (λ path f. Follows-completed path _ r.progress f) r.stored r.dungeons r.monsters

  -- As many distinct monsters of the dungeon as there are: all of them.
  Completes-All :
      (row : DungeonRow) (d' : Db) (c : Completes user_id dungeon_id row d d')
      → All (λ t. In t c.progress.defeated) (monster_names env dungeon_id d.dungeon_monsters)
  Completes-All row d' c =
      let (r, found) = saved-found env user_id dungeon_id d c.progress s c.saved in
      let f =
        saved-Follows env d.dungeons d.dungeon_monsters user_id dungeon_id r found
          d.dungeon_progress c.progress s.rows c.saved in
      let names = monster_names env dungeon_id d.dungeon_monsters in
      In-All (λ t. In t c.progress.defeated) names
        (pigeonhole c.progress.defeated names f.defeated_once f.defeated (
          rw
            (length-names_of env.uuid_string
              (select_all (monster_of dungeon_id) d.dungeon_monsters))
            c.enough))

module _ (env : Env) (user_id dungeon_id : ℕ) (w : World) (s : Sound env w.db) where
  -- However its statements go, RetreatDungeon keeps the saved progress sound.
  pub retreat_dungeon-Sound : Sound env (retreat_dungeon env user_id dungeon_id w).1.db
  retreat_dungeon-Sound = elim (retreat_dungeon-RetreatOutcome env user_id dungeon_id w) [
    | inl (same, _) ↦ subst (Sound env) (sym same) s
    | inr (c, r, _) ↦ Retreats-Sound env user_id dungeon_id w.db s c _ r
  ]

  -- However its statements go, CompleteDungeonMonster keeps the saved progress sound.
  pub complete_dungeon_monster-Sound :
      (monster_id : ℕ)
      → Sound env (complete_dungeon_monster env user_id dungeon_id monster_id w).1.db
  complete_dungeon_monster-Sound monster_id =
      elim (complete_dungeon_monster-DefeatOutcome env user_id dungeon_id monster_id w) [
        | inl (same, _) ↦ subst (Sound env) (sym same) s
        | inr (ds, _, r) ↦ Defeats-Sound env user_id dungeon_id w.db s monster_id ds _ r
      ]

  -- However its statements go, CompleteDungeon keeps the saved progress sound.
  pub complete_dungeon-Sound : Sound env (complete_dungeon env user_id dungeon_id w).1.db
  complete_dungeon-Sound = elim (complete_dungeon-CompleteOutcome env user_id dungeon_id w) [
    | inl (same, _) ↦ subst (Sound env) (sym same) s
    | inr (row, _, _, r) ↦ Completes-Sound env user_id dungeon_id w.db s row _ r
  ]

  -- When CompleteDungeon returns a reward, the player had not completed the dungeon, stood at its
  -- treasure, and had defeated every one of its monsters; the reward is the dungeon's.
  pub complete_dungeon_reward :
      (xp : ℤ)
      → (complete_dungeon env user_id dungeon_id w).0 ≡ ok xp
      → (row : DungeonRow) × (p : ProgressRow) × (select (dungeon_is dungeon_id) w.db.dungeons
          ≡ some row)
        × (select (progress_is user_id dungeon_id) w.db.dungeon_progress ≡ some p)
        × (xp ≡ row.xp_reward)
        × (p.completed ≡ false)
        × (p.position ≡ row.treasure)
        × All (λ t. In t p.defeated) (monster_names env dungeon_id w.db.dungeon_monsters)
  complete_dungeon_reward xp h = elim (complete_dungeon-CompleteOutcome env user_id dungeon_id w) [
    | inl (_, (e, r)) ↦ absurd (cc)
    | inr (row, found, r, c) ↦ (
      row,
      c.progress,
      found,
      c.saved,
      cc,
      c.first,
      c.there,
      Completes-All env user_id dungeon_id w.db s row _ c,
    )
  ]
