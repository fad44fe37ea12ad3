-- ===== src/Dungeon/Quests/Defeat.antt =====
-- Every way in which CompleteDungeonMonster can end.
use magic_jigsaw.Db.Writes.{Changed-update, Changed}
use magic_jigsaw.Prelude.{
  refl, eq_iff, ◌≢◌, ℕ, ◌≡◌, ◌⊎◌, inl, inr, none, some, List, [], ◌∷◌, ◌++◌, String, true, arith,
  Option-cases, subst, sym, ◌∙◌, In,
}
use magic_jigsaw.Db.Table.{select, update}
use magic_jigsaw.Db.Schema.{Db, Cell, ProgressRow}
use magic_jigsaw.Db.Action.{
  not_found, ◌>>=◌, execute, Env, World, Error, Ending, ok, err, commit, rollback, transaction,
  begun, transaction_outcome, Result-cases, Action,
}
use magic_jigsaw.Dungeon.Statements.{progress_is, select_progress, update_progress}
use magic_jigsaw.Db.Schema.{MonsterRow}
use magic_jigsaw.Dungeon.Grid.{cell_eq-eq}
use magic_jigsaw.Dungeon.Statements.{monster_is, select_monster_cell}
use magic_jigsaw.Dungeon.Store.{
  has_text, with_defeated, defeat_transaction, complete_dungeon_monster,
}

has_text-In : (t : String) (xs : List String) → In t xs → has_text t xs ≡ true
unfolding has_text
has_text-In t [] h = absurd h
has_text-In t (x ∷ xs) (inl e) = ground (arith, eq_iff x t)
has_text-In t (x ∷ xs) (inr h) = ground (arith, has_text-In t xs h)

-- A row with these defeated monsters, and the same otherwise.
pub record Records (defeated : List String) (p p' : ProgressRow) : Type 0 where
  pub set : p'.defeated ≡ defeated
  pub rest : p ≡ record p' { defeated = p.defeated }

with_defeated-Records : (ds : List String) (p : ProgressRow) → Records ds p (with_defeated ds p)
unfolding with_defeated
with_defeated-Records ds p = record { set = refl; rest = refl }

-- The player at the monster's cell adds its id, which was not there, to the defeated ones.
pub record Defeats (env : Env) (user_id dungeon_id monster_id : ℕ) (d : Db) (defeated : List String)
    (d' : Db) : Type 0 where
  pub monster : MonsterRow
  pub known : select (monster_is monster_id dungeon_id) d.dungeon_monsters ≡ some monster
  pub progress : ProgressRow
  pub saved : select (progress_is user_id dungeon_id) d.dungeon_progress ≡ some progress
  pub there : progress.position ≡ monster.cell
  pub new : ¬ In (env.uuid_string monster_id) progress.defeated
  pub added : defeated ≡ progress.defeated ++ env.uuid_string monster_id ∷ []
  pub stored : d' ≡ record d {
    dungeon_progress =
        update (progress_is user_id dungeon_id) (with_defeated defeated) d.dungeon_progress;
  }
  pub effect :
      Changed
        (progress_is user_id dungeon_id)
        (Records defeated)
        d.dungeon_progress
        d'.dungeon_progress

module _ (env : Env) (user_id dungeon_id monster_id : ℕ) (w : World) where
  -- CompleteDungeonMonster changes no table and returns an error, or it adds the monster and returns
  -- the defeated ones.
  abbrev pub DefeatOutcome : Type 0
  DefeatOutcome =
      let (r, w') = complete_dungeon_monster env user_id dungeon_id monster_id w in
      ((w'.db ≡ w.db) × ((e : Error) × (r ≡ err e)))
      ⊎ ((ds : List String) × (r ≡ ok ds) × Defeats env user_id dungeon_id monster_id w.db ds w'.db)

  select_monster_cell-keeps :
      (execute env (select_monster_cell monster_id dungeon_id) w).1.db ≡ w.db
  unfolding execute select_monster_cell
  select_monster_cell-keeps = ground arith

  select_monster_cell-found :
      (c : Cell)
      → (execute env (select_monster_cell monster_id dungeon_id) w).0 ≡ ok (some c)
      → (m : MonsterRow) × (select (monster_is monster_id dungeon_id) w.db.dungeon_monsters
          ≡ some m)
        × (m.cell ≡ c)
  unfolding execute select_monster_cell
  select_monster_cell-found c h =
      elim (Option-cases (select (monster_is monster_id dungeon_id) w.db.dungeon_monsters)) [
        | inl n ↦ absurd (ground arith)
        | inr (m, n) ↦ (m, n, ground arith)
      ]

  defeat_transaction-Defeats :
      (c : Cell) (v : World) (m : MonsterRow) (ds : List String)
      → select (monster_is monster_id dungeon_id) v.db.dungeon_monsters ≡ some m
      → m.cell ≡ c
      → (defeat_transaction env user_id dungeon_id monster_id c v).0 ≡ ok (commit ds)
      → Defeats env user_id dungeon_id monster_id v.db ds
          (defeat_transaction env user_id dungeon_id monster_id c v).1.db
  unfolding defeat_transaction select_progress update_progress
  defeat_transaction-Defeats c v m ds k mc h =
      elim (Option-cases (select (progress_is user_id dungeon_id) v.db.dungeon_progress)) [
        | inl n ↦ absurd (ground arith)
        | inr (p, n) ↦ record {
          monster = m;
          known = k;
          progress = p;
          saved = n;
          there = ground (arith, cell_eq-eq p.position c);
          new = λ i. ground (arith, has_text-In (env.uuid_string monster_id) p.defeated i);
          added = ground arith;
          stored = ground arith;
          effect =
              subst (Changed (progress_is user_id dungeon_id) (Records ds) v.db.dungeon_progress)
                (ground arith)
                (Changed-update (progress_is user_id dungeon_id) (Records ds) (with_defeated ds)
                  v.db.dungeon_progress (with_defeated-Records ds));
        }
      ]

  defeat_transaction-rollback :
      (c : Cell) (v : World) (ds : List String)
      → (defeat_transaction env user_id dungeon_id monster_id c v).0 ≢ ok (rollback ds)
  unfolding defeat_transaction select_progress update_progress
  defeat_transaction-rollback c v ds h = ground arith

  module _ (c : Cell)
      (n : (execute env (select_monster_cell monster_id dungeon_id) w).0 ≡ ok (some c)) where
    abbrev body : Action (Ending (List String))
    body = defeat_transaction env user_id dungeon_id monster_id c

    abbrev loaded : World
    loaded = (execute env (select_monster_cell monster_id dungeon_id) w).1

    same :
        complete_dungeon_monster env user_id dungeon_id monster_id w ≡ transaction env body loaded
    unfolding complete_dungeon_monster
    same = rw (n, ◌>>=◌)

    found_cell : DefeatOutcome
    found_cell = rw same (elim (transaction_outcome env body loaded) [
      | inl a ↦ inl (a.unchanged ∙ select_monster_cell-keeps, (a.error, a.returned))
      | inr (inl r) ↦ absurd (defeat_transaction-rollback c (begun env body loaded) r.value r.ended)
      | inr (inr t) ↦
          let (m, e, mc) = select_monster_cell-found c n in
          inr (
            t.value,
            t.returned,
            subst
                (λ d.
                  Defeats env user_id dungeon_id monster_id d t.value
                    (transaction env body loaded).1.db)
                select_monster_cell-keeps
                (subst (Defeats env user_id dungeon_id monster_id loaded.db t.value) (sym t.done) (
                  defeat_transaction-Defeats c (begun env body loaded) m t.value
                    (rw select_monster_cell-keeps e) mc t.ended)),
          )
    ])

  -- However its statements go, CompleteDungeonMonster either changes no table and returns an error, or
  -- the monster is one of the dungeon's, stands at the player's cell and was not defeated by the player
  -- before, its id is added to the defeated ones of the player's row, which is the same otherwise, no other
  -- row changes, and they are returned.
  pub complete_dungeon_monster-DefeatOutcome : DefeatOutcome
  unfolding complete_dungeon_monster
  complete_dungeon_monster-DefeatOutcome =
      elim (Result-cases (execute env (select_monster_cell monster_id dungeon_id) w).0) [
        | inl (e, n) ↦ inl (ground (arith, select_monster_cell-keeps), (e, ground arith))
        | inr (none, n) ↦ inl (ground (arith, select_monster_cell-keeps), (not_found, ground arith))
        | inr (some c, n) ↦ found_cell c n
      ]
