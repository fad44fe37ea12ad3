-- ===== src/Stories/Order.antt =====
-- internal/repository/stories.go: pages are completed in their order, whatever calls are made.
use magic_jigsaw.Stories.Store.{update_story_level_required, complete_story_page, add_story_page}
use magic_jigsaw.Stories.Pages.{complete_story_page_outcome, Finishes, PreviousDone}
use magic_jigsaw.Stories.Statements.{
  update_level_required, AddStoryPageParams, insert_page, story_is, page_is, gate_of, page_of_story,
  PageGate, done_is, page_at, done_row, is_done,
}
use magic_jigsaw.Stories.Rows.{exists_mono, found-and, found-All, All-both}
use magic_jigsaw.Prelude.{
  int_sub, ℕ, ◌≡◌, ◌⊎◌, inl, inr, refl, sym, subst, Bool, true, false, ◌&&◌, none, some, List, [],
  ◌∷◌, ◌++◌, ℤ, pos, ◌==◌, arith, Bool-cases, Option-cases, All,
}
use magic_jigsaw.Db.Table.{select, exists}
use magic_jigsaw.Db.Schema.{Db}
use magic_jigsaw.Db.Action.{Env, World, Result, execute, Result-cases, execute_ok, execute_err}
use magic_jigsaw.Db.Table.{Once, Once-append, exists-append_keeps}
use magic_jigsaw.Db.Schema.{StoryRow, PageRow, PageProgressRow}
use magic_jigsaw.Lists.{All-append, All-mono}

abbrev pub has_id : ℕ → PageRow → Bool
has_id id p = p.id == id

-- A page that the user has completed comes after one that the user has completed, or is the first.
abbrev pub AfterDone : Db → PageRow → Type 0
AfterDone d p =
    (user_id : ℕ) → is_done d user_id p ≡ true → PreviousDone user_id p.story_id p.page_index d

-- Pages have ids of their own, what is completed are pages, and it is completed in order.
pub record InOrder (d : Db) : Type 0 where
  pub ids : (id : ℕ) → Once (has_id id) d.story_pages
  pub known :
      All
        (λ (r : PageProgressRow). exists (has_id r.page_id) d.story_pages ≡ true)
        d.story_page_progress
  pub after : All (AfterDone d) d.story_pages

-- What is completed stays so when more is.
more_done :
    (d : Db) (r : PageProgressRow) (user_id story_id : ℕ) (index : ℤ)
    → PreviousDone user_id story_id index d
    → PreviousDone user_id story_id index
        (record d { story_page_progress = d.story_page_progress ++ r ∷ [] })
more_done d r user_id story_id index (inl first) = inl first
more_done d r user_id story_id index (inr h) = inr (
    exists_mono (λ p. page_at story_id (int_sub index (pos 1)) p && is_done d user_id p) _
      d.story_pages
      (λ p t.
        ground (
          arith,
          exists-append_keeps (done_is user_id p.id) d.story_page_progress r (ground arith),
        ))
      h)

done_or_new :
    (d : Db) (user_id new_user page_id : ℕ) (p : PageRow)
    → is_done
        (record d { story_page_progress = d.story_page_progress ++ done_row new_user page_id ∷ [] })
        user_id
        p
      ≡ true
    → (is_done d user_id p ≡ true) ⊎ ((user_id ≡ new_user) × (p.id ≡ page_id))
done_or_new d user_id new_user page_id p h = split d.story_page_progress h
  where
    split :
        (rs : List PageProgressRow)
        → exists (done_is user_id p.id) (rs ++ done_row new_user page_id ∷ []) ≡ true
        → (exists (done_is user_id p.id) rs ≡ true) ⊎ ((user_id ≡ new_user) × (p.id ≡ page_id))
    split [] h = inr (ground arith)
    split (r ∷ rs) h = elim (Bool-cases (done_is user_id p.id r)) [
      | inl t ↦ inl (ground arith)
      | inr t ↦ elim (split rs (ground arith)) [ inl s ↦ inl (ground arith) | inr s ↦ inr s ]
    ]

gate_row :
    (pages : List PageRow) (stories : List StoryRow) (page_id story_id : ℕ) (gate : PageGate)
    → gate_of (select (page_is page_id story_id) pages) stories ≡ some gate
    → (row : PageRow) × (select (page_is page_id story_id) pages ≡ some row)
      × (gate.index ≡ row.page_index)
gate_row pages stories page_id story_id gate h =
    elim (Option-cases (select (page_is page_id story_id) pages)) [
      | inl n ↦ absurd (ground arith)
      | inr (row, n) ↦ elim (Option-cases (select (story_is row.story_id) stories)) [
        | inl m ↦ absurd (ground arith)
        | inr (s, m) ↦ (row, n, ground arith)
      ]
    ]

Finishes-InOrder :
    (user_id story_id page_id : ℕ) (r : Result (ℤ × Bool)) (d d' : Db)
    → Finishes user_id story_id page_id r d d'
    → InOrder d
    → InOrder d'
Finishes-InOrder user_id story_id page_id r d d' f o =
    let gate = f.is_open.gate in
    let (row, is_row, index_is) =
      gate_row d.story_pages d.stories page_id story_id gate f.is_open.is_gate in
    let (by_id, of_story) =
      found-and (has_id page_id) (page_of_story story_id) d.story_pages row (o.ids page_id)
        is_row in
    let new = done_row user_id page_id in
    let later : Db = record d { story_page_progress = d.story_page_progress ++ new ∷ [] } in
    let own : PreviousDone user_id row.story_id row.page_index later =
      more_done d new user_id row.story_id row.page_index (
        subst (λ i. PreviousDone user_id row.story_id i d) index_is
          (subst (λ s. PreviousDone user_id s gate.index d) (ground arith) f.is_open.previous)) in
    subst InOrder (sym f.done) (record {
      ids = o.ids;
      known =
          All-append (λ (x : PageProgressRow). exists (has_id x.page_id) d.story_pages ≡ true)
            d.story_page_progress new o.known (rw (exists, by_id) refl);
      after =
          All-mono (λ p. AfterDone d p × (has_id page_id p ≡ true → p ≡ row)) (AfterDone later)
            (λ p h u t. elim (done_or_new d u user_id page_id p t) [
              | inl old ↦ more_done d new u p.story_id p.page_index (h.0 u old)
              | inr (u_is, id_is) ↦
                  let same : p ≡ row = h.1 (ground (arith, id_is)) in
                  subst (λ v. PreviousDone v p.story_id p.page_index later) (sym u_is)
                    (subst (λ (q : PageRow). PreviousDone user_id q.story_id q.page_index later)
                      (sym same) own)
            ])
            d.story_pages
            (All-both (AfterDone d) (λ p. has_id page_id p ≡ true → p ≡ row) d.story_pages o.after
              (found-All (has_id page_id) d.story_pages row (o.ids page_id) by_id));
    })

module _ (user_id : ℕ) (pages : List PageRow) (id : ℕ) where
  -- What is completed is a page.
  known_page :
      (rs : List PageProgressRow)
      → All (λ (r : PageProgressRow). exists (has_id r.page_id) pages ≡ true) rs
      → exists (done_is user_id id) rs ≡ true
      → exists (has_id id) pages ≡ true
  known_page [] k h = ground arith
  known_page (r ∷ rs) k h = elim (Bool-cases (done_is user_id id r)) [
    | inl t ↦ subst (λ i. exists (has_id i) pages ≡ true) (ground arith) k.0
    | inr t ↦ known_page rs k.1 (ground arith)
  ]

new_page-InOrder :
    (d : Db) (page : PageRow)
    → exists (has_id page.id) d.story_pages ≡ false
    → InOrder d
    → InOrder (record d { story_pages = d.story_pages ++ page ∷ [] })
new_page-InOrder d page fresh o =
    let later : Db = record d { story_pages = d.story_pages ++ page ∷ [] } in
    record {
      ids = λ i. elim (Bool-cases (page.id == i)) [
        | inl t ↦
            let absent : select (has_id page.id) d.story_pages ≡ none = ground arith in
            let is : page.id ≡ i = ground (arith, t) in
            Once-append (has_id i) d.story_pages page
              (inl (subst (λ j. select (has_id j) d.story_pages ≡ none) is absent)) (o.ids i)
        | inr t ↦ Once-append (has_id i) d.story_pages page (inr t) (o.ids i)
      ];
      known =
          All-mono (λ (r : PageProgressRow). exists (has_id r.page_id) d.story_pages ≡ true)
            (λ (r : PageProgressRow). exists (has_id r.page_id) later.story_pages ≡ true)
            (λ r h. exists-append_keeps (has_id r.page_id) d.story_pages page h)
            d.story_page_progress o.known;
      after =
          All-append (AfterDone later) d.story_pages page
            (All-mono (AfterDone d) (AfterDone later)
              (λ p h u t. elim (h u t) [
                | inl first ↦ inl first
                | inr e ↦ inr (
                    exists-append_keeps
                      (λ q. page_at p.story_id (int_sub p.page_index (pos 1)) q && is_done d u q)
                      d.story_pages page e)
              ])
              d.story_pages o.after)
            (λ u t. absurd (
              ground (
                arith,
                known_page u d.story_pages page.id d.story_page_progress o.known t,
                fresh,
              )));
    }

-- A call of a method, by a user or an admin.
pub data StoryCall : Type 0 where
  completes : ℕ → ℕ → ℕ → StoryCall
  adds : AddStoryPageParams → StoryCall
  gates : ℕ → ℤ → StoryCall

module _ (env : Env) where
  abbrev pub story_call : StoryCall → World → World
  story_call (completes user_id story_id page_id) w =
      (complete_story_page env user_id story_id page_id w).1
  story_call (adds p) w = (add_story_page env p w).1
  story_call (gates story_id level) w = (update_story_level_required env story_id level w).1

  abbrev pub story_calls : List StoryCall → World → World
  story_calls [] w = w
  story_calls (c ∷ cs) w = story_calls cs (story_call c w)

  inserted_page :
      (id : ℕ) (p : AddStoryPageParams) (d d' : Db) (page : PageRow)
      → insert_page id p d ≡ some (page, d')
      → (exists (has_id page.id) d.story_pages ≡ false)
        × (d' ≡ record d { story_pages = d.story_pages ++ page ∷ [] })
  unfolding insert_page
  inserted_page id p d d' page h = ground arith

  add_story_page-InOrder :
      (p : AddStoryPageParams) (w : World) → InOrder w.db → InOrder (add_story_page env p w).1.db
  unfolding add_story_page
  add_story_page-InOrder p w o =
      let s = insert_page (env.gen_random_uuid w.clock) p in
      elim (Result-cases (execute env s w).0) [
        | inl (e, h) ↦ subst InOrder (sym (execute_err env s w e h)) o
        | inr (page, h) ↦
            let (fresh, done) =
              inserted_page (env.gen_random_uuid w.clock) p w.db (execute env s w).1.db page
                (execute_ok env s w page h) in
            subst InOrder (sym done) (new_page-InOrder w.db page fresh o)
      ]

  other_stories :
      (stories : List StoryRow) (d : Db) → InOrder d → InOrder (record d { stories = stories })
  other_stories stories d o = record { ids = o.ids; known = o.known; after = o.after }

  gate_stories :
      (story_id : ℕ) (level : ℤ) (w : World)
      → let d' = (update_story_level_required env story_id level w).1.db in
        d' ≡ record w.db { stories = d'.stories }
  unfolding update_story_level_required execute update_level_required
  gate_stories story_id level w = ground arith

  update_gate-InOrder :
      (story_id : ℕ) (level : ℤ) (w : World)
      → InOrder w.db
      → InOrder (update_story_level_required env story_id level w).1.db
  update_gate-InOrder story_id level w o =
      subst InOrder (sym (gate_stories story_id level w))
        (other_stories (update_story_level_required env story_id level w).1.db.stories w.db o)

  story_call-InOrder : (c : StoryCall) (w : World) → InOrder w.db → InOrder (story_call c w).db
  story_call-InOrder (completes user_id story_id page_id) w o =
      elim (complete_story_page_outcome env user_id story_id page_id w) [
        | inl (same, _) ↦ subst InOrder (sym same) o
        | inr f ↦ Finishes-InOrder user_id story_id page_id _ w.db _ f o
      ]
  story_call-InOrder (adds p) w o = add_story_page-InOrder p w o
  story_call-InOrder (gates story_id level) w o = update_gate-InOrder story_id level w o

  -- Where pages have ids of their own and every user has completed pages in their order, any sequence
  -- of calls of CompleteStoryPage, AddStoryPage and UpdateStoryLevelRequired, of all users and admins,
  -- however their statements go, keeps it so: a page that a user has completed is the first of its
  -- story, or the user has completed the page before it.
  pub story_calls-InOrder :
      (cs : List StoryCall) (w : World) → InOrder w.db → InOrder (story_calls cs w).db
  story_calls-InOrder [] w o = o
  story_calls-InOrder (c ∷ cs) w o =
      story_calls-InOrder cs (story_call c w) (story_call-InOrder c w o)
