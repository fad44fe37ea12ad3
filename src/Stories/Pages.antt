-- ===== src/Stories/Pages.antt =====
-- internal/repository/stories.go: how CompleteStoryPage can end.
use magic_jigsaw.Points.Store.{get_xp}
use magic_jigsaw.Stories.Statements.{
  select_gate, insert_done, page_is, is_done, done_row, gate_of, select_done_at, page_at, PageGate,
  done_is,
}
use magic_jigsaw.Stories.Store.{
  complete_story_page, complete_reached, awarded, complete_at, complete_gated, mark_done, level_of,
  check_previous, story_viewer_level,
}
use magic_jigsaw.Points.Levels.{max_level}
use magic_jigsaw.Prelude.{◌≤ℤ◌}
use magic_jigsaw.Prelude.{
  int_sub, ℕ, ◌≡◌, ◌≢◌, ◌⊎◌, inl, inr, refl, sym, ap, subst, ◌∙◌, Bool, true, false, ◌&&◌, Option,
  none, some, [], ◌∷◌, ◌++◌, ℤ, pos, int_lt, ◌==◌, arith, Bool-cases, Option-cases,
}
use magic_jigsaw.Db.Table.{select, exists}
use magic_jigsaw.Db.Schema.{Db, UserRow}
use magic_jigsaw.Db.Action.{
  Env, World, Action, Error, Result, ok, err, not_found, pure, raise, or_raise, branch, ◌>>=◌,
  execute, execute_ok, execute_err,
}
use magic_jigsaw.Points.Statements.{select_xp, user_is}
use magic_jigsaw.Db.Reads.{Reads}
use magic_jigsaw.Db.Action.{level_too_low, bind_split}

-- The level that CompleteStoryPage and GetStory take a caller to have: the highest for no user.
abbrev pub ViewsAt : ℕ → Db → ℕ → Type 0
ViewsAt user_id d level =
    ((user_id ≡ 0) × (level ≡ max_level))
    ⊎ ((u : UserRow) × (select (user_is user_id) d.users ≡ some u) × (level ≡ level_of u.xp))

-- The page before it is completed, unless it is the first one.
abbrev pub PreviousDone : ℕ → ℕ → ℤ → Db → Type 0
PreviousDone user_id story_id index d =
    (index ≤ℤ pos 0)
    ⊎ (exists (λ p. page_at story_id (int_sub index (pos 1)) p && is_done d user_id p) d.story_pages
        ≡ true)

-- The page is open to the user: it is one of the story's, the user has the level that the story requires,
-- and has completed the page before it.
pub record PageOpen (user_id story_id page_id : ℕ) (d : Db) : Type 0 where
  pub gate : PageGate
  pub is_gate : gate_of (select (page_is page_id story_id) d.story_pages) d.stories ≡ some gate
  pub level : ℕ
  pub views : ViewsAt user_id d level
  pub reached : gate.level_required ≤ℤ pos level
  pub previous : PreviousDone user_id story_id gate.index d

-- The page is newly done, and its XP are awarded.
pub record Finishes (user_id story_id page_id : ℕ) (r : Result (ℤ × Bool)) (d d' : Db)
    : Type 0 where
  pub is_open : PageOpen user_id story_id page_id d
  pub fresh : exists (done_is user_id page_id) d.story_page_progress ≡ false
  pub answer : r ≡ ok (is_open.gate.xp, true)
  pub done :
      d' ≡ record d { story_page_progress = d.story_page_progress ++ done_row user_id page_id ∷ [] }

module _ (env : Env) where
  viewer-Reads : (user_id : ℕ) → Reads (story_viewer_level env user_id)
  unfolding story_viewer_level get_xp select_xp execute
  viewer-Reads user_id = record { at = λ w. ground arith }

  viewer_answers :
      (user_id : ℕ) (w : World) (level : ℕ)
      → (story_viewer_level env user_id w).0 ≡ ok level
      → ViewsAt user_id w.db level
  unfolding story_viewer_level get_xp select_xp execute
  viewer_answers user_id w level h = elim (Bool-cases (user_id == 0)) [
    | inl z ↦ inl (ground arith)
    | inr z ↦ elim (Option-cases (select (user_is user_id) w.db.users)) [
      | inl n ↦ absurd (ground arith)
      | inr (u, n) ↦ inr (u, n, ground arith)
    ]
  ]

  module _ (user_id story_id : ℕ) (index : ℤ) where
    previous-Reads : Reads (check_previous env user_id story_id index)
    unfolding check_previous execute select_done_at
    previous-Reads = record { at = λ w. ground arith }

    previous_answers :
        (w : World)
        → (check_previous env user_id story_id index w).0 ≡ ok tt
        → PreviousDone user_id story_id index w.db
    unfolding check_previous execute select_done_at
    previous_answers w h = elim (Bool-cases (int_lt (pos 0) index)) [
      | inl later ↦ inr (ground arith)
      | inr first ↦ inl (ground arith)
    ]

  branch_split :
      {A : Type 0} (P : Result A × World → Type 0) (b : Bool) (m k : Action A) (w : World)
      → (b ≡ true → P (m w))
      → (b ≡ false → P (k w))
      → P (branch b m k w)
  branch_split P true m k w f g = f refl
  branch_split P false m k w f g = g refl

  insert_done_new :
      (user_id page_id : ℕ) (d d' : Db)
      → insert_done user_id page_id d ≡ some (true, d')
      → (exists (done_is user_id page_id) d.story_page_progress ≡ false)
        × (d' ≡ record d {
          story_page_progress = d.story_page_progress ++ done_row user_id page_id ∷ [];
        })
  unfolding insert_done
  insert_done_new user_id page_id d d' h = ground arith

  insert_done_old :
      (user_id page_id : ℕ) (d d' : Db) → insert_done user_id page_id d ≡ some (false, d') → d' ≡ d
  unfolding insert_done
  insert_done_old user_id page_id d d' h = ground arith

  module _ (user_id story_id page_id : ℕ) (w : World) where
    -- Nothing is awarded, or the page was open.
    abbrev pub FinishesOrNot : Result (ℤ × Bool) × World → Type 0
    FinishesOrNot x =
        ((x.1.db ≡ w.db) × ((xp : ℤ) → x.0 ≢ ok (xp, true)))
        ⊎ Finishes user_id story_id page_id x.0 w.db x.1.db

    nothing : (e : Error) (w' : World) → w'.db ≡ w.db → FinishesOrNot (err e, w')
    nothing e w' same = inl (same, λ xp h. ground arith)

    module _ (o : PageOpen user_id story_id page_id w.db) where
      inserted :
          (newly : Bool) (w2 : World)
          → insert_done user_id page_id w.db ≡ some (newly, w2.db)
          → FinishesOrNot (pure (awarded env o.gate.xp newly) w2)
      inserted false w2 h = inl (insert_done_old user_id page_id w.db w2.db h, λ xp e. ground arith)
      inserted true w2 h =
          let (fresh, done) = insert_done_new user_id page_id w.db w2.db h in
          inr (record { is_open = o; fresh = fresh; answer = refl; done = done })

      inserts :
          (w1 : World) → w1.db ≡ w.db → FinishesOrNot (mark_done env user_id page_id o.gate.xp w1)
      unfolding mark_done
      inserts w1 same =
          let s = insert_done user_id page_id in
          let m = execute env s in
          bind_split FinishesOrNot m (λ newly. pure (awarded env o.gate.xp newly)) w1
            (λ e h. nothing e (m w1).1 (execute_err env s w1 e h ∙ same))
            (λ newly h. inserted newly (m w1).1 (ap s (sym same) ∙ execute_ok env s w1 newly h))

    gated_page :
        (gate : PageGate) (w1 : World)
        → w1.db ≡ w.db
        → gate_of (select (page_is page_id story_id) w.db.story_pages) w.db.stories ≡ some gate
        → FinishesOrNot (complete_gated env user_id story_id page_id gate w1)
    gated_page gate w1 same is =
        let viewer = story_viewer_level env user_id in
        let same2 = (viewer-Reads user_id).at w1 ∙ same in
        let w2 = (viewer w1).1 in
        let check = check_previous env user_id story_id gate.index in
        let same3 = (previous-Reads user_id story_id gate.index).at w2 ∙ same2 in
        let reached = complete_reached env user_id story_id page_id gate in
        bind_split FinishesOrNot viewer (complete_at env user_id story_id page_id gate) w1
          (λ e h. nothing e w2 same2)
          (λ level h.
            branch_split FinishesOrNot (int_lt (pos level) gate.level_required)
              (raise level_too_low) reached w2 (λ low. nothing level_too_low w2 same2)
              (λ high.
                bind_split FinishesOrNot check (λ _. mark_done env user_id page_id gate.xp) w2
                  (λ e h2. nothing e (check w2).1 same3)
                  (λ a h2.
                    inserts
                      (record {
                        gate = gate;
                        is_gate = is;
                        level = level;
                        views =
                            subst (λ d. ViewsAt user_id d level) same
                              (viewer_answers user_id w1 level h);
                        reached = ground (arith, high);
                        previous =
                            subst (PreviousDone user_id story_id gate.index) same2
                              (previous_answers user_id story_id gate.index w2 h2);
                      })
                      (check w2).1 same3)))

    found :
        (row : Option PageGate) (w1 : World)
        → select_gate page_id story_id w.db ≡ some (row, w1.db)
        → FinishesOrNot
            ((or_raise row not_found >>= complete_gated env user_id story_id page_id) w1)
    unfolding select_gate
    found none w1 h = nothing not_found w1 (ground arith)
    found (some gate) w1 h = gated_page gate w1 (ground arith) (ground arith)

    -- However its statements go, CompleteStoryPage changes no table and awards nothing new, or the page is
    -- one of the story's, the user has the level that the story requires and has completed the page
    -- before it, if it is not the first, but not this page: then it is recorded as done, no other
    -- table changes, and its XP are returned as newly awarded.
    pub complete_story_page_outcome :
        FinishesOrNot (complete_story_page env user_id story_id page_id w)
    unfolding complete_story_page
    complete_story_page_outcome =
        let s = select_gate page_id story_id in
        let m = execute env s in
        bind_split FinishesOrNot m
          (λ row. or_raise row not_found >>= complete_gated env user_id story_id page_id) w
          (λ e h. nothing e (m w).1 (execute_err env s w e h))
          (λ row h. found row (m w).1 (execute_ok env s w row h))
