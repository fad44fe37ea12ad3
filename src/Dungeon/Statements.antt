-- ===== src/Dungeon/Statements.antt =====
-- The SQL of internal/repository/dungeon.go that players' moves run.
use magic_jigsaw.Prelude.{
  ℕ, Bool, ◌&&◌, Option, none, some, [], ◌∷◌, ◌++◌, String, ◌==◌, if◌then◌else◌, length,
}
use magic_jigsaw.Db.Table.{select, select_all, update, exists}
use magic_jigsaw.Db.Schema.{Db, Cell, ImageRow, DungeonRow, MonsterRow, ProgressRow, TreasureRow}
use magic_jigsaw.Db.Action.{Statement}
use magic_jigsaw.Dungeon.Grid.{cell_eq}
use magic_jigsaw.Points.Statements.{user_is}

abbrev pub dungeon_is : ℕ → DungeonRow → Bool
dungeon_is id d = d.id == id

abbrev pub image_is : ℕ → ImageRow → Bool
image_is id i = i.id == id

-- COALESCE(i.url, '') of a left join on the image's id
abbrev pub url_of : Option ℕ → Db → String
url_of none d = ""
url_of (some id) d = elim (select (image_is id) d.images) [ none ↦ "" | some i ↦ i.url ]

-- SELECT ... FROM dungeons d LEFT JOIN images i ON i.id = d.treasure_image_id WHERE d.id = $1
unfoldable pub select_dungeon : ℕ → Statement (Option (DungeonRow × String))
select_dungeon id d = elim (select (dungeon_is id) d.dungeons) [
  | none ↦ some (none, d)
  | some row ↦ some (some (row, url_of row.treasure_image_id d), d)
]

-- JOIN images i ON i.id = dm.image_id
abbrev pub has_image : Db → MonsterRow → Bool
has_image d m = exists (image_is m.image_id) d.images

abbrev pub monster_of : ℕ → MonsterRow → Bool
monster_of dungeon_id m = m.dungeon_id == dungeon_id

-- WHERE dm.dungeon_id = $1 AND dm.cell_row = $2 AND dm.cell_col = $3
abbrev pub monster_at : ℕ → Cell → MonsterRow → Bool
monster_at dungeon_id cell m = monster_of dungeon_id m && cell_eq m.cell cell

unfoldable pub select_monster_at : ℕ → Cell → Statement (Option (MonsterRow × String))
select_monster_at dungeon_id cell d =
    elim (select (λ m. monster_at dungeon_id cell m && has_image d m) d.dungeon_monsters) [
      | none ↦ some (none, d)
      | some m ↦ some (some (m, url_of (some m.image_id) d), d)
    ]

-- SELECT cell_row, cell_col FROM dungeon_monsters WHERE id = $1 AND dungeon_id = $2
abbrev pub monster_is : ℕ → ℕ → MonsterRow → Bool
monster_is id dungeon_id m = m.id == id && monster_of dungeon_id m

unfoldable pub select_monster_cell : ℕ → ℕ → Statement (Option Cell)
select_monster_cell id dungeon_id d = elim (select (monster_is id dungeon_id) d.dungeon_monsters) [
  | none ↦ some (none, d)
  | some m ↦ some (some m.cell, d)
]

-- SELECT count(*) FROM dungeon_monsters WHERE dungeon_id = $1
unfoldable pub count_monsters : ℕ → Statement ℕ
count_monsters dungeon_id d =
    some (length (select_all (monster_of dungeon_id) d.dungeon_monsters), d)

abbrev pub progress_is : ℕ → ℕ → ProgressRow → Bool
progress_is user_id dungeon_id p = p.user_id == user_id && p.dungeon_id == dungeon_id

-- SELECT ... FROM dungeon_progress WHERE user_id = $1 AND dungeon_id = $2 FOR UPDATE. The callers
-- scan different columns of the row.
unfoldable pub select_progress : ℕ → ℕ → Statement (Option ProgressRow)
select_progress user_id dungeon_id d =
    some (select (progress_is user_id dungeon_id) d.dungeon_progress, d)

-- INSERT INTO dungeon_progress: the user and the dungeon must exist, and the key be free.
unfoldable pub insert_progress : ProgressRow → Statement (Unit {0})
insert_progress p d =
    if exists (user_is p.user_id) d.users && (exists (dungeon_is p.dungeon_id) d.dungeons)
    then (if exists (progress_is p.user_id p.dungeon_id) d.dungeon_progress
        then none
        else some (tt, record d { dungeon_progress = d.dungeon_progress ++ p ∷ [] }))
    else none

-- UPDATE dungeon_progress SET ... WHERE user_id = $1 AND dungeon_id = $2
unfoldable pub update_progress : ℕ → ℕ → (ProgressRow → ProgressRow) → Statement (Unit {0})
update_progress user_id dungeon_id set d = some (
  tt,
  record d { dungeon_progress = update (progress_is user_id dungeon_id) set d.dungeon_progress },
)

abbrev pub treasure_is : ℕ → ℕ → TreasureRow → Bool
treasure_is user_id dungeon_id t = t.user_id == user_id && t.dungeon_id == dungeon_id

-- INSERT INTO dungeon_treasure_unlocks ... ON CONFLICT (user_id, dungeon_id) DO NOTHING
unfoldable pub insert_treasure : ℕ → ℕ → ℕ → Statement (Unit {0})
insert_treasure user_id dungeon_id image_id d =
    if exists (treasure_is user_id dungeon_id) d.dungeon_treasure_unlocks
    then some (tt, d)
    else if exists (user_is user_id) d.users
        && (exists (dungeon_is dungeon_id) d.dungeons && exists (image_is image_id) d.images)
    then some (
      tt,
      record d {
        dungeon_treasure_unlocks =
            d.dungeon_treasure_unlocks
            ++ record { user_id = user_id; dungeon_id = dungeon_id; image_id = image_id } ∷ [];
      },
    )
    else none
