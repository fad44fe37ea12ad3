-- ===== src/Stories/Statements.antt =====
-- The SQL of internal/repository/stories.go.
use magic_jigsaw.Prelude.{
  ℕ, Bool, true, false, not, ◌&&◌, Option, none, some, List, [], ◌∷◌, ◌++◌, String, ℤ, pos, ◌+ℤ◌,
  int_lt, int_eq, ◌==◌, if◌then◌else◌,
}
use magic_jigsaw.Db.Table.{select, update, exists}
use magic_jigsaw.Db.Schema.{PageRow, PageProgressRow, StoryRow, Db}
use magic_jigsaw.Db.Action.{Statement}
use magic_jigsaw.Points.Statements.{user_is, fits_int4}
use magic_jigsaw.Expedition.Levels.Statements.{image_is}

abbrev pub story_is : ℕ → StoryRow → Bool
story_is id s = s.id == id

abbrev pub page_of_story : ℕ → PageRow → Bool
page_of_story story_id p = p.story_id == story_id

-- WHERE sp.id = $1 AND sp.story_id = $2
abbrev pub page_is : ℕ → ℕ → PageRow → Bool
page_is id story_id p = p.id == id && page_of_story story_id p

-- PRIMARY KEY (user_id, page_id)
abbrev pub done_is : ℕ → ℕ → PageProgressRow → Bool
done_is user_id page_id r = r.user_id == user_id && r.page_id == page_id

-- Of a page: its index, its XP, and the level that its story requires.
pub record PageGate : Type 0 where
  pub index : ℤ
  pub xp : ℤ
  pub level_required : ℤ

abbrev pub gate_of : Option PageRow → List StoryRow → Option PageGate
gate_of none stories = none
gate_of (some p) stories = elim (select (story_is p.story_id) stories) [
  | none ↦ none
  | some s ↦
      some (record { index = p.page_index; xp = p.xp_reward; level_required = s.level_required })
]

-- SELECT sp.page_index, sp.xp_reward, st.level_required FROM story_pages sp JOIN stories st ...
unfoldable pub select_gate : ℕ → ℕ → Statement (Option PageGate)
select_gate page_id story_id d =
    some (gate_of (select (page_is page_id story_id) d.story_pages) d.stories, d)

abbrev pub page_at : ℕ → ℤ → PageRow → Bool
page_at story_id index p = page_of_story story_id p && int_eq p.page_index index

-- The user has completed the page.
abbrev pub is_done : Db → ℕ → PageRow → Bool
is_done d user_id p = exists (done_is user_id p.id) d.story_page_progress

-- SELECT EXISTS(SELECT 1 FROM story_pages sp JOIN story_page_progress spp ...)
unfoldable pub select_done_at : ℕ → ℕ → ℤ → Statement Bool
select_done_at user_id story_id index d =
    if fits_int4 index
    then some (exists (λ p. page_at story_id index p && is_done d user_id p) d.story_pages, d)
    else none

abbrev pub done_row : ℕ → ℕ → PageProgressRow
done_row user_id page_id = record { user_id = user_id; page_id = page_id }

-- INSERT INTO story_page_progress ... ON CONFLICT DO NOTHING: whether a row was affected. The user and
-- the page must exist.
unfoldable pub insert_done : ℕ → ℕ → Statement Bool
insert_done user_id page_id d =
    if exists (done_is user_id page_id) d.story_page_progress
    then some (false, d)
    else if exists (user_is user_id) d.users && exists (λ p. p.id == page_id) d.story_pages
    then some (
      true,
      record d { story_page_progress = d.story_page_progress ++ done_row user_id page_id ∷ [] },
    )
    else none

pub record AddStoryPageParams : Type 0 where
  pub story_id : ℕ
  pub image_id : ℕ
  pub title : String
  pub description : String
  pub grid_cols : ℤ
  pub grid_rows : ℤ
  pub play_seconds : ℤ
  pub xp_reward : ℤ

-- max(page_index) + 1 over the pages of a story, with 0 for no page.
abbrev pub next_index : ℕ → List PageRow → ℤ
next_index story_id [] = pos 0
next_index story_id (p ∷ ps) =
    let rest = next_index story_id ps in
    if page_of_story story_id p
    then (if int_lt rest (p.page_index +ℤ pos 1) then p.page_index +ℤ pos 1 else rest)
    else rest

abbrev pub new_page : ℕ → ℤ → AddStoryPageParams → PageRow
new_page id index p = record {
  id = id;
  story_id = p.story_id;
  page_index = index;
  image_id = p.image_id;
  title = p.title;
  description = p.description;
  grid_cols = p.grid_cols;
  grid_rows = p.grid_rows;
  play_seconds = p.play_seconds;
  xp_reward = p.xp_reward;
}

abbrev pub page_fits : AddStoryPageParams → Bool
page_fits p =
    fits_int4 p.grid_cols
    && (fits_int4 p.grid_rows && (fits_int4 p.play_seconds && fits_int4 p.xp_reward))

-- INSERT INTO story_pages ... VALUES ($1, COALESCE((SELECT max(page_index) + 1 ...), 0), ...)
-- RETURNING id, page_index, with the id that the server generates. The story and the image must exist,
-- and no page may have the id, nor the story a page with the index.
unfoldable pub insert_page : ℕ → AddStoryPageParams → Statement PageRow
insert_page id p d =
    let page = new_page id (next_index p.story_id d.story_pages) p in
    if exists (story_is p.story_id) d.stories
      && (exists (image_is p.image_id) d.images
          && (page_fits p
              && (fits_int4 page.page_index
                  && (not (exists (λ q. q.id == id) d.story_pages)
                      && not (
                          exists
                            (λ q. page_of_story p.story_id q && int_eq q.page_index page.page_index)
                            d.story_pages)))))
    then some (page, record d { story_pages = d.story_pages ++ page ∷ [] })
    else none

abbrev pub coalesced : Option ℕ → ℕ → ℕ
coalesced none old = old
coalesced (some id) old = id

abbrev pub retold : String → String → Option ℕ → PageRow → PageRow
retold title description image p = record p {
  title = title;
  description = description;
  image_id = coalesced image p.image_id;
}

abbrev pub image_known : Option ℕ → Db → Bool
image_known none d = true
image_known (some id) d = exists (image_is id) d.images

-- UPDATE story_pages SET title = $3, description = $4, image_id = COALESCE($5, image_id)
-- WHERE id = $1 AND story_id = $2 RETURNING id: whether there was a row
unfoldable pub update_page : ℕ → ℕ → String → String → Option ℕ → Statement Bool
update_page id story_id title description image d =
    if image_known image d
    then some (
      exists (page_is id story_id) d.story_pages,
      record d {
        story_pages = update (page_is id story_id) (retold title description image) d.story_pages;
      },
    )
    else if exists (page_is id story_id) d.story_pages
    then none
    else some (false, d)

abbrev pub with_level_required : ℤ → StoryRow → StoryRow
with_level_required level s = record s { level_required = level }

-- UPDATE stories SET level_required = $2 WHERE id = $1 RETURNING id: whether there was a row
unfoldable pub update_level_required : ℕ → ℤ → Statement Bool
update_level_required id level d =
    if fits_int4 level
    then some (
      exists (story_is id) d.stories,
      record d { stories = update (story_is id) (with_level_required level) d.stories },
    )
    else none

-- SELECT EXISTS(SELECT 1 FROM stories WHERE id = $1)
unfoldable pub select_story_exists : ℕ → Statement Bool
select_story_exists id d = some (exists (story_is id) d.stories, d)
