-- ===== src/Stories/Handler.antt =====
-- internal/api/stories.go: handleCompleteStoryPage, once the ids are parsed.
use magic_jigsaw.Stories.Statements.{done_row, done_is}
use magic_jigsaw.Dungeon.Credit.{PaysXp, credit_outcome}
use magic_jigsaw.Points.Levels.{level_from_xp}
use magic_jigsaw.Stories.Pages.{complete_story_page_outcome, Finishes, PageOpen}
use magic_jigsaw.Prelude.{
  ◌++◌, ◌++◌, ◌++◌, ◌++◌, ◌++◌, ◌++◌, ◌++◌, ◌++◌, ◌++◌, ◌++◌, ◌++◌, ◌++◌, ◌++◌, ◌++◌, ℕ, ◌≡◌, ◌≢◌,
  ◌⊎◌, inl, inr, refl, sym, ap, subst, ◌∙◌, Bool, true, false, ◌&&◌, [], ◌∷◌, ◌++◌, ℤ, pos, int_lt,
  arith,
}
use magic_jigsaw.Db.Table.{exists}
use magic_jigsaw.Db.Schema.{Db}
use magic_jigsaw.Db.Action.{not_found, level_too_low, locked, Env, World, Error, Result, ok, err}
use magic_jigsaw.Http.Handler.{Handler, answered, refuse}
use magic_jigsaw.Dungeon.Handler.{credit_xp}
use magic_jigsaw.Stories.Store.{complete_story_page}

-- storyCompleteResponse, whose field `completed` is always true
pub record StoryCompleteResponse : Type 0 where
  pub xp_earned : ℤ
  pub xp : ℤ
  pub level : ℕ
  pub xp_into_level : ℤ
  pub xp_for_next_level : ℕ

abbrev pub story_response : ℤ × ℤ → StoryCompleteResponse
story_response (total, earned) =
    let (level, into, next) = level_from_xp total in
    record {
      xp_earned = earned;
      xp = total;
      level = level;
      xp_into_level = into;
      xp_for_next_level = next;
    }

abbrev pub refuse_page : Error → Handler StoryCompleteResponse
refuse_page not_found = refuse 404 "not_found"
refuse_page level_too_low = refuse 403 "level_too_low"
refuse_page locked = refuse 409 "locked"
refuse_page _ = refuse 500 "internal"

module _ (env : Env) (user_id : ℕ) where
  abbrev pub after_page : Result (ℤ × Bool) → Handler StoryCompleteResponse
  after_page (err e) w = refuse_page e w
  after_page (ok (awarded, newly)) w =
      let (t, w') = credit_xp env (newly && int_lt (pos 0) awarded) user_id awarded w in
      (answered (story_response t), w')

  unfoldable pub handle_complete_story_page : ℕ → ℕ → Handler StoryCompleteResponse
  handle_complete_story_page story_id page_id w =
      let (r, w') = complete_story_page env user_id story_id page_id w in after_page r w'

  -- An open page was newly done, and its XP were added to the user's.
  pub record PaysPage (story_id page_id : ℕ) (d d' : Db) : Type 0 where
    pub is_open : PageOpen user_id story_id page_id d
    pub fresh : exists (done_is user_id page_id) d.story_page_progress ≡ false
    pub pays :
        PaysXp user_id is_open.gate.xp
          (record d {
            story_page_progress = d.story_page_progress ++ done_row user_id page_id ∷ [];
          })
          d'

  refuse_page-same : (e : Error) (w : World) → (refuse_page e w).1.db ≡ w.db
  refuse_page-same e w = ground arith

  module _ (story_id page_id : ℕ) (w : World) where
    abbrev pub PaysOrNot : World → Type 0
    PaysOrNot w' = (w'.db.users ≡ w.db.users) ⊎ PaysPage story_id page_id w.db w'.db

    unpaid :
        (xp : ℤ) (newly : Bool) (w1 : World)
        → newly ≡ false
        → w1.db ≡ w.db
        → PaysOrNot (after_page (ok (xp, newly)) w1).1
    unpaid xp newly w1 old same =
        elim (credit_outcome env user_id (newly && int_lt (pos 0) xp) xp w1) [
          | inl u ↦ inl (ap (λ (d : Db). d.users) (u ∙ same))
          | inr (b, p) ↦ absurd (ground arith)
        ]

    paid :
        (r : Result (ℤ × Bool)) (w1 : World)
        → Finishes user_id story_id page_id r w.db w1.db
        → PaysOrNot (after_page r w1).1
    paid r w1 f =
        let xp = f.is_open.gate.xp in
        subst (λ r. PaysOrNot (after_page r w1).1) (sym f.answer)
          (elim (credit_outcome env user_id (true && int_lt (pos 0) xp) xp w1) [
            | inl u ↦ inl (ap (λ (d : Db). d.users) (u ∙ f.done))
            | inr (b, p) ↦ inr (record {
              is_open = f.is_open;
              fresh = f.fresh;
              pays = subst (λ d. PaysXp user_id xp d (after_page (ok (xp, true)) w1).1.db) f.done p;
            })
          ])

    not_new :
        (r : Result (ℤ × Bool)) (w1 : World)
        → w1.db ≡ w.db
        → ((xp : ℤ) → r ≢ ok (xp, true))
        → PaysOrNot (after_page r w1).1
    not_new (err e) w1 same no_award = inl (ap (λ (d : Db). d.users) (refuse_page-same e w1 ∙ same))
    not_new (ok (xp, false)) w1 same no_award = unpaid xp false w1 refl same
    not_new (ok (xp, true)) w1 same no_award = absurd (no_award xp refl)

    -- However its statements go, handleCompleteStoryPage changes no row of users, or the page was open
    -- to the user and not yet done, it is recorded as done, and its XP are added to the user's, and
    -- nothing else changes.
    pub handle_complete_story_page_pays :
        PaysOrNot (handle_complete_story_page story_id page_id w).1
    unfolding handle_complete_story_page
    handle_complete_story_page_pays =
        let (r, w1) = complete_story_page env user_id story_id page_id w in
        elim (complete_story_page_outcome env user_id story_id page_id w) [
          | inl (same, no_award) ↦ not_new r w1 same no_award
          | inr f ↦ paid r w1 f
        ]
