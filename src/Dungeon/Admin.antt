-- ===== src/Dungeon/Admin.antt =====
-- internal/repository/dungeon.go: UpdateDungeon and insertDungeonMonsters.
use magic_jigsaw.Prelude.{
  refl, ℕ, ◌≡◌, ◌⊎◌, inl, inr, Bool, true, ◌&&◌, ◌||◌, not, Option, none, some, List, [], ◌∷◌, ◌++◌,
  String, ℤ, ◌==◌, if◌then◌else◌, arith, Bool-cases, subst, sym,
}
use magic_jigsaw.Db.Table.{select, update, delete, exists, select-delete}
use magic_jigsaw.Db.Schema.{Db, Cell, DungeonRow, MonsterRow, ProgressRow}
use magic_jigsaw.Db.Action.{
  Env, World, Action, Statement, Error, Ending, ok, err, commit, rollback, not_found, pure,
  raise_if, ◌>>=◌, ◌>>◌, Result-cases, execute, transaction, begun, transaction_outcome,
}
use magic_jigsaw.Points.Statements.{fits_int4}
use magic_jigsaw.Dungeon.Layout.Defs.{DungeonMonsterInput}
use magic_jigsaw.Dungeon.Statements.{dungeon_is, image_is, monster_of}

pub record SaveDungeonParams : Type 0 where
  pub title : String
  pub xp_reward : ℤ
  pub active : Bool
  pub start : Cell
  pub treasure : Cell
  pub path : List Cell
  pub monsters : List DungeonMonsterInput
  pub treasure_image_id : ℕ
  pub treasure_grid_cols : ℤ
  pub treasure_grid_rows : ℤ
  pub treasure_play_seconds : ℤ

abbrev pub nullable_uuid : ℕ → Option ℕ
nullable_uuid id = if id == 0 then none else some id

abbrev pub with_layout : SaveDungeonParams → DungeonRow → DungeonRow
with_layout p d = record d {
  title = p.title;
  xp_reward = p.xp_reward;
  start = p.start;
  treasure = p.treasure;
  path = p.path;
  active = p.active;
  treasure_image_id = nullable_uuid p.treasure_image_id;
  treasure_grid_cols = p.treasure_grid_cols;
  treasure_grid_rows = p.treasure_grid_rows;
  treasure_play_seconds = p.treasure_play_seconds;
}

abbrev pub cell_fits : Cell → Bool
cell_fits c = fits_int4 c.row && fits_int4 c.col

abbrev pub layout_fits : SaveDungeonParams → Bool
layout_fits p =
    fits_int4 p.xp_reward
    && (cell_fits p.start
        && (cell_fits p.treasure
            && (fits_int4 p.treasure_grid_cols
                && (fits_int4 p.treasure_grid_rows && fits_int4 p.treasure_play_seconds))))

abbrev pub image_exists : Option ℕ → Db → Bool
image_exists none d = true
image_exists (some id) d = exists (image_is id) d.images

-- UPDATE dungeons SET ... WHERE id = $1: whether a row was affected. The image of an updated row must
-- exist.
unfoldable pub update_dungeon_row : ℕ → SaveDungeonParams → Statement Bool
update_dungeon_row id p d =
    if layout_fits p
      && (not (exists (dungeon_is id) d.dungeons)
          || image_exists (nullable_uuid p.treasure_image_id) d)
    then some (
      exists (dungeon_is id) d.dungeons,
      record d { dungeons = update (dungeon_is id) (with_layout p) d.dungeons },
    )
    else none

-- DELETE FROM dungeon_monsters WHERE dungeon_id = $1
unfoldable pub delete_monsters : ℕ → Statement (Unit {0})
delete_monsters id d =
    some (tt, record d { dungeon_monsters = delete (monster_of id) d.dungeon_monsters })

abbrev pub progress_of : ℕ → ProgressRow → Bool
progress_of id p = p.dungeon_id == id

-- DELETE FROM dungeon_progress WHERE dungeon_id = $1
unfoldable pub delete_progress : ℕ → Statement (Unit {0})
delete_progress id d =
    some (tt, record d { dungeon_progress = delete (progress_of id) d.dungeon_progress })

-- INSERT INTO dungeon_monsters, with the id that the server generates, which no monster may have: the
-- dungeon and the image must exist.
unfoldable pub insert_monster : ℕ → ℕ → DungeonMonsterInput → Statement (Unit {0})
insert_monster id dungeon_id m d =
    if exists (dungeon_is dungeon_id) d.dungeons
      && (exists (image_is m.image_id) d.images
          && (cell_fits m.cell
              && (fits_int4 m.grid_cols
                  && (fits_int4 m.grid_rows
                      && (fits_int4 m.play_seconds
                          && not (exists (λ (x : MonsterRow). x.id == id) d.dungeon_monsters))))))
    then some (
      tt,
      record d {
        dungeon_monsters =
            d.dungeon_monsters
            ++ record {
              id = id;
              dungeon_id = dungeon_id;
              cell = m.cell;
              image_id = m.image_id;
              grid_cols = m.grid_cols;
              grid_rows = m.grid_rows;
              play_seconds = m.play_seconds;
            }
              ∷ [];
      },
    )
    else none

module _ (env : Env) where
  unfoldable pub insert_dungeon_monsters : ℕ → List DungeonMonsterInput → Action (Unit {0})
  unfolding execute
  insert_dungeon_monsters dungeon_id [] = pure tt
  insert_dungeon_monsters dungeon_id (m ∷ ms) =
      (λ w. execute env (insert_monster (env.gen_random_uuid w.clock) dungeon_id m) w) >>= λ _.
      insert_dungeon_monsters dungeon_id ms

  unfoldable pub clear_progress : ℕ → Action (Ending (Unit {0}))
  unfolding execute
  clear_progress id = do _ ← execute env (delete_progress id); pure (commit tt)

  unfoldable pub update_dungeon_transaction : ℕ → SaveDungeonParams → Action (Ending (Unit {0}))
  unfolding execute
  update_dungeon_transaction id p = do
    found ← execute env (update_dungeon_row id p)
    raise_if (not found) not_found
    _ ← execute env (delete_monsters id)
    _ ← insert_dungeon_monsters id p.monsters
    clear_progress id

  unfoldable pub update_dungeon : ℕ → SaveDungeonParams → Action (Unit {0})
  update_dungeon id p = transaction env (update_dungeon_transaction id p)

-- What every run of the rest of a method establishes, the method establishes.
bind_last :
    {A B : Type 0} (m : Action A) (k : A → Action B) (P : Db → Type 0) (b : B) (w : World)
    → ((a : A) (v : World) → (k a v).0 ≡ ok b → P (k a v).1.db)
    → ((m >>= k) w).0 ≡ ok b
    → P ((m >>= k) w).1.db
bind_last m k P b w f h = elim (Result-cases (m w).0) [
  | inl (e, n) ↦ absurd (ground arith)
  | inr (a, n) ↦
      let same : (m >>= k) w ≡ k a (m w).1 = rw (n, ◌>>=◌) refl in
      subst (λ r. P r.1.db) (sym same) (f a (m w).1 (rw (sym same) h))
]

module _ (env : Env) (id : ℕ) (p : SaveDungeonParams) where
  -- No progress in the dungeon is saved.
  abbrev pub Cleared : Db → Type 0
  Cleared d = select (progress_of id) d.dungeon_progress ≡ none

  clear_progress-Cleared :
      (w : World)
      → (clear_progress env id w).0 ≡ ok (commit tt)
      → Cleared (clear_progress env id w).1.db
  unfolding clear_progress execute delete_progress
  clear_progress-Cleared w h = elim (Bool-cases (env.fails w.clock)) [
    | inl f ↦ absurd (ground arith)
    | inr f ↦ ground (arith, select-delete (progress_of id) w.db.dungeon_progress)
  ]

  -- The transaction from its third statement on, and from the insertion of the monsters on.
  abbrev from_monsters : Action (Ending (Unit {0}))
  from_monsters = insert_dungeon_monsters env id p.monsters >>= λ _. clear_progress env id

  abbrev from_delete : Action (Ending (Unit {0}))
  from_delete = execute env (delete_monsters id) >>= λ _. from_monsters

  update_dungeon_transaction-Cleared :
      (w : World)
      → (update_dungeon_transaction env id p w).0 ≡ ok (commit tt)
      → Cleared (update_dungeon_transaction env id p w).1.db
  unfolding update_dungeon_transaction
  update_dungeon_transaction-Cleared w h =
      bind_last (execute env (update_dungeon_row id p))
        (λ found. raise_if (not found) not_found >>= λ _. from_delete) Cleared (commit tt) w
        (λ found w1.
          bind_last (raise_if (not found) not_found) (λ _. from_delete) Cleared (commit tt) w1
            (λ _ w2.
              bind_last (execute env (delete_monsters id)) (λ _. from_monsters) Cleared (commit tt)
                w2
                (λ _ w3.
                  bind_last (insert_dungeon_monsters env id p.monsters) (λ _. clear_progress env id)
                    Cleared (commit tt) w3 (λ _ w4. clear_progress-Cleared w4))))
        h

  clear_progress-rollback : (w : World) → (clear_progress env id w).0 ≡ ok (rollback tt) → ⊥
  unfolding clear_progress execute delete_progress
  clear_progress-rollback w h = ground arith

  update_dungeon_transaction-rollback :
      (w : World) → (update_dungeon_transaction env id p w).0 ≡ ok (rollback tt) → ⊥
  unfolding update_dungeon_transaction
  update_dungeon_transaction-rollback w h =
      bind_last (execute env (update_dungeon_row id p))
        (λ found. raise_if (not found) not_found >>= λ _. from_delete) (λ d. ⊥) (rollback tt) w
        (λ found w1.
          bind_last (raise_if (not found) not_found) (λ _. from_delete) (λ d. ⊥) (rollback tt) w1
            (λ _ w2.
              bind_last (execute env (delete_monsters id)) (λ _. from_monsters) (λ d. ⊥)
                (rollback tt) w2
                (λ _ w3.
                  bind_last (insert_dungeon_monsters env id p.monsters) (λ _. clear_progress env id)
                    (λ d. ⊥) (rollback tt) w3 (λ _ w4. clear_progress-rollback w4))))
        h

  -- However its statements go, UpdateDungeon either changes no table and returns an error, or no saved
  -- progress in the dungeon is left, of any player.
  pub update_dungeon_drops_progress :
      (w : World)
      → let (r, w') = update_dungeon env id p w in
        ((w'.db ≡ w.db) × ((e : Error) × (r ≡ err e))) ⊎ ((r ≡ ok tt) × Cleared w'.db)
  unfolding update_dungeon
  update_dungeon_drops_progress w =
      elim (transaction_outcome env (update_dungeon_transaction env id p) w) [
        | inl a ↦ inl (a.unchanged, (a.error, a.returned))
        | inr (inl r) ↦ absurd (
            update_dungeon_transaction-rollback (begun env (update_dungeon_transaction env id p) w)
              r.ended)
        | inr (inr t) ↦ inr (
          t.returned,
          subst Cleared (sym t.done) (
              update_dungeon_transaction-Cleared (begun env (update_dungeon_transaction env id p) w)
                t.ended),
        )
      ]
