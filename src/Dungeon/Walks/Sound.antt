-- ===== src/Dungeon/Walks/Sound.antt =====
-- What holds of every row of dungeon_progress.
use magic_jigsaw.Prelude.{
  subst, ℕ, ◌≡◌, Option, none, some, ℤ, List, [], ◌∷◌, String, All, In, Distinct,
}
use magic_jigsaw.Db.Table.{Once, select, select_all}
use magic_jigsaw.Db.Schema.{Db, Cell, DungeonRow, MonsterRow, ProgressRow}
use magic_jigsaw.Db.Action.{Env}
use magic_jigsaw.Dungeon.Statements.{dungeon_is, monster_of, progress_is}

-- The ids of monsters as text.
abbrev pub names_of : (ℕ → String) → List MonsterRow → List String
names_of f [] = []
names_of f (m ∷ ms) = f m.id ∷ names_of f ms

-- The monsters of a dungeon.
abbrev pub monster_names : Env → ℕ → List MonsterRow → List String
monster_names env id ms = names_of env.uuid_string (select_all (monster_of id) ms)

-- A cell to retreat to lies on the path.
abbrev pub ReturnsTo : List Cell → Option ℤ → Option ℤ → Type 0
ReturnsTo path (some r) (some c) = In (record { row = r; col = c }) path
ReturnsTo path (some r) none = Unit
ReturnsTo path none c = Unit

-- The player stands on the path, at a cell that was visited, and may go back to such a cell; the
-- visited cells are distinct cells of the path, and the defeated monsters distinct monsters of the dungeon.
pub record Follows (path : List Cell) (names : List String) (p : ProgressRow) : Type 0 where
  pub position : In p.position path
  pub previous : ReturnsTo path p.prev_row p.prev_col
  pub seen : In p.position p.visited
  pub previous_seen : ReturnsTo p.visited p.prev_row p.prev_col
  pub visited : All (λ c. In c path) p.visited
  pub visited_once : Distinct p.visited
  pub defeated : All (λ t. In t names) p.defeated
  pub defeated_once : Distinct p.defeated

abbrev pub RowSound : Env → List DungeonRow → List MonsterRow → ProgressRow → Type 0
RowSound env ds ms p =
    (row : DungeonRow) × (select (dungeon_is p.dungeon_id) ds ≡ some row)
    × Follows row.path (monster_names env p.dungeon_id ms) p

-- Each row follows its dungeon's path, and there is one at most for a player and a dungeon.
pub record RowsSound (env : Env) (ds : List DungeonRow) (ms : List MonsterRow)
    (ps : List ProgressRow) : Type 0 where
  pub each : All (RowSound env ds ms) ps
  pub once : (user_id dungeon_id : ℕ) → Once (progress_is user_id dungeon_id) ps

-- The progress is sound, and each path goes through its start.
pub record Sound (env : Env) (d : Db) : Type 0 where
  pub rows : RowsSound env d.dungeons d.dungeon_monsters d.dungeon_progress
  pub starts : All (λ (r : DungeonRow). In r.start r.path) d.dungeons

-- A sound row follows the path of the dungeon that it names.
pub RowSound-Follows :
    (env : Env) (ds : List DungeonRow) (ms : List MonsterRow) (x : ProgressRow) (id : ℕ)
    (row : DungeonRow)
    → RowSound env ds ms x
    → x.dungeon_id ≡ id
    → select (dungeon_is id) ds ≡ some row
    → Follows row.path (monster_names env id ms) x
RowSound-Follows env ds ms x id row (r, e, f) h k =
    let e' : select (dungeon_is id) ds ≡ some r =
      subst (λ i. select (dungeon_is i) ds ≡ some r) h e in
    let same : r ≡ row = cc in
    subst (λ (q : DungeonRow). Follows q.path (monster_names env id ms) x) same
      (subst (λ i. Follows r.path (monster_names env i ms) x) h f)
