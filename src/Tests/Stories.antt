-- ===== src/Tests/Stories.antt =====
-- A story of two pages, which a player completes in order.
use magic_jigsaw.Http.Handler.{answered}
use magic_jigsaw.Dungeon.Handler.{credit_xp}
use magic_jigsaw.Stories.Handler.{
  story_response, handle_complete_story_page_pays, PaysPage, handle_complete_story_page,
}
use magic_jigsaw.Points.Levels.{xp_for_level_up, climb, level_from_xp}
use magic_jigsaw.Points.Store.{add_xp, get_xp}
use magic_jigsaw.Stories.Statements.{insert_done, select_done_at, select_gate}
use magic_jigsaw.Stories.Store.{mark_done, check_previous, story_viewer_level, complete_story_page}
use magic_jigsaw.Stories.Order.{story_calls-InOrder, gates, has_id, completes, story_calls, InOrder}
use magic_jigsaw.Stories.Pages.{complete_story_page_outcome, Finishes}
use magic_jigsaw.Prelude.{
  ℕ, ◌≡◌, ◌≢◌, ◌⊎◌, inl, inr, refl, true, none, [], ◌∷◌, ℤ, pos, ◌==◌, arith, Bool-cases,
}
use magic_jigsaw.Db.Table.{Once-append}
use magic_jigsaw.Db.Schema.{PageRow, StoryRow}
use magic_jigsaw.Db.Action.{locked, World, ok, err, execute}
use magic_jigsaw.Points.Statements.{update_xp, select_xp, fits_int4}
use magic_jigsaw.Tests.World.{env, tables}

abbrev tale : StoryRow
tale = record {
  id = 20;
  title = "Tale";
  category = "";
  author = "";
  description = "";
  level_required = pos 1;
  cover_image_id = none;
  created_by = none;
}

abbrev leaf : ℕ → ℕ → PageRow
leaf id index = record {
  id = id;
  story_id = 20;
  page_index = pos index;
  image_id = 7;
  title = "";
  description = "";
  grid_cols = pos 4;
  grid_rows = pos 6;
  play_seconds = pos 300;
  xp_reward = pos 100;
}

abbrev unread : World
unread = record {
  db = record (tables []) { stories = tale ∷ []; story_pages = leaf 21 0 ∷ leaf 22 1 ∷ [] };
  clock = 0;
}

unread-InOrder : InOrder unread.db
unread-InOrder = record {
  ids = λ id.
      Once-append (has_id id) (leaf 21 0 ∷ []) (leaf 22 1)
        (elim (Bool-cases (21 == id)) [ inl t ↦ inr (ground arith) | inr t ↦ inl (ground arith) ])
        (inr refl, tt);
  known = tt;
  after = ((λ u h. inl (omega arith)), ((λ u h. absurd (ground arith)), tt));
}

first_page : (complete_story_page env 1 20 21 unread).0 ≡ ok (pos 100, true)
unfolding complete_story_page select_gate story_viewer_level get_xp select_xp execute level_from_xp
    climb xp_for_level_up check_previous mark_done insert_done
first_page = refl

second_page_first : (complete_story_page env 1 20 22 unread).0 ≡ err locked
unfolding complete_story_page select_gate story_viewer_level get_xp select_xp execute level_from_xp
    climb xp_for_level_up check_previous select_done_at fits_int4 mark_done insert_done
second_page_first = refl

complete_story_page_outcome_example :
    let x = complete_story_page env 1 20 21 unread in
    ((x.1.db ≡ unread.db) × ((xp : ℤ) → x.0 ≢ ok (xp, true)))
    ⊎ Finishes 1 20 21 x.0 unread.db x.1.db
complete_story_page_outcome_example = complete_story_page_outcome env 1 20 21 unread

story_calls-InOrder_example :
    InOrder
      (story_calls env (completes 1 20 21 ∷ gates 20 (pos 3) ∷ completes 1 20 22 ∷ []) unread).db
story_calls-InOrder_example =
    story_calls-InOrder env (completes 1 20 21 ∷ gates 20 (pos 3) ∷ completes 1 20 22 ∷ []) unread
      unread-InOrder

handle_complete_story_page_pays_example :
    let w' = (handle_complete_story_page env 1 20 21 unread).1 in
    (w'.db.users ≡ unread.db.users) ⊎ PaysPage env 1 20 21 unread.db w'.db
handle_complete_story_page_pays_example = handle_complete_story_page_pays env 1 20 21 unread

-- The handler of a newly completed page answers with its XP.
page_pays :
    (handle_complete_story_page env 1 20 21 unread).0 ≡ answered (story_response (pos 100, pos 100))
unfolding handle_complete_story_page complete_story_page select_gate story_viewer_level get_xp
    select_xp execute level_from_xp climb xp_for_level_up check_previous mark_done insert_done
    credit_xp add_xp update_xp fits_int4
page_pays = refl
