-- ===== src/Dungeon/History.antt =====
-- Any sequence of the players' calls of MoveDungeon, RetreatDungeon, CompleteDungeonMonster and
-- CompleteDungeon, in the order in which their transactions take effect.
use magic_jigsaw.Prelude.{
  pos, String, ℕ, ◌≡◌, ◌≢◌, inl, inr, some, ℤ, List, [], ◌∷◌, ◌++◌, Bool, true, refl, arith, subst,
  sym, Bool-cases,
}
use magic_jigsaw.Db.Table.{select-append_found, select, update, select-update, select-passes}
use magic_jigsaw.Db.Schema.{Db, Cell, ProgressRow, DungeonRow}
use magic_jigsaw.Db.Action.{Env, World, ok}
use magic_jigsaw.Dungeon.Statements.{progress_is}
use magic_jigsaw.Dungeon.Store.{
  moved, retreated, with_defeated, with_completed, append_cell_dedup, move_dungeon, retreat_dungeon,
  complete_dungeon_monster, complete_dungeon,
}
use magic_jigsaw.Dungeon.Moves.Step.{Step}
use magic_jigsaw.Dungeon.Moves.Outcome.{move_dungeon-MoveOutcome}
use magic_jigsaw.Dungeon.Quests.Retreat.{Retreats, retreat_dungeon-RetreatOutcome}
use magic_jigsaw.Dungeon.Quests.Defeat.{Defeats, complete_dungeon_monster-DefeatOutcome}
use magic_jigsaw.Dungeon.Quests.Complete.{Completes, complete_dungeon-CompleteOutcome}
use magic_jigsaw.Dungeon.Walks.Sound.{Sound}
use magic_jigsaw.Dungeon.Walks.Rows.{
  KeepsKey, moved-KeepsKey, retreated-KeepsKey, with_defeated-KeepsKey, with_completed-KeepsKey,
}
use magic_jigsaw.Dungeon.Walks.Moving.{
  move_dungeon-Sound, update_spend_points-keeps, insert_progress-keeps,
}
use magic_jigsaw.Dungeon.Walks.Questing.{
  retreat_dungeon-Sound, complete_dungeon_monster-Sound, complete_dungeon-Sound,
}

-- A call of a method, by a user, for a dungeon.
pub data Call : Type 0 where
  moves : ℕ → ℕ → Cell → Call
  retreats : ℕ → ℕ → Call
  defeats : ℕ → ℕ → ℕ → Call
  completes : ℕ → ℕ → Call

module _ (env : Env) where
  abbrev pub call : Call → World → World
  call (moves u i c) w = (move_dungeon env u i c w).1
  call (retreats u i) w = (retreat_dungeon env u i w).1
  call (defeats u i m) w = (complete_dungeon_monster env u i m w).1
  call (completes u i) w = (complete_dungeon env u i w).1

  abbrev pub run : List Call → World → World
  run [] w = w
  run (c ∷ cs) w = run cs (call c w)

  call-Sound : (c : Call) (w : World) → Sound env w.db → Sound env (call c w).db
  call-Sound (moves u i c) w s = move_dungeon-Sound env u i c w s
  call-Sound (retreats u i) w s = retreat_dungeon-Sound env u i w s
  call-Sound (defeats u i m) w s = complete_dungeon_monster-Sound env u i w s m
  call-Sound (completes u i) w s = complete_dungeon-Sound env u i w s

  -- However the statements of any sequence of calls go, the saved progress stays sound: every player
  -- stands on the dungeon's path, the visited cells are distinct cells of it, the defeated monsters
  -- are distinct monsters of the dungeon, and a player has one row at most for a dungeon.
  pub run-Sound : (cs : List Call) (w : World) → Sound env w.db → Sound env (run cs w).db
  run-Sound [] w s = s
  run-Sound (c ∷ cs) w s = run-Sound cs (call c w) (call-Sound c w s)

  module _ (user_id dungeon_id : ℕ) where
    -- The player has completed the dungeon.
    abbrev pub Completed : List ProgressRow → Type 0
    Completed ps =
        (p : ProgressRow) × (select (progress_is user_id dungeon_id) ps ≡ some p)
        × (p.completed ≡ true)

    Completed-update :
        (q : ProgressRow → Bool) (f : ProgressRow → ProgressRow) (ps : List ProgressRow)
        → KeepsKey f
        → ((p : ProgressRow) → p.completed ≡ true → (f p).completed ≡ true)
        → Completed ps
        → Completed (update q f ps)
    Completed-update q f [] k h (p, e, c) = absurd (ground arith)
    Completed-update q f (x ∷ ps) k h (p, e, c) =
        elim (Bool-cases (progress_is user_id dungeon_id x)) [
          | inl mine ↦
              let done : x.completed ≡ true = ground arith in
              elim (Bool-cases (q x)) [
                | inl t ↦ (f x, rw t (ground (arith, k.user x, k.dungeon x)), h x done)
                | inr t ↦ (x, rw t (ground arith), done)
              ]
          | inr other ↦
              let (r, found, kept) = Completed-update q f ps k h (p, ground arith, c) in
              (r, ground (arith, k.user x, k.dungeon x, found), kept)
        ]

    Completed-append :
        (ps : List ProgressRow) (x : ProgressRow) → Completed ps → Completed (ps ++ x ∷ [])
    Completed-append ps x (p, e, c) =
        (p, select-append_found (progress_is user_id dungeon_id) ps x p e, c)

    moved_done :
        (from target : Cell) (vs : List Cell) (p : ProgressRow)
        → p.completed ≡ true
        → (moved from target vs p).completed ≡ true
    unfolding moved
    moved_done from target vs p h = h

    Completed-moves :
        (u i : ℕ) (target : Cell) (d : Db) (balance : ℤ) (d' : Db)
        → Step u i target d balance d'
        → Completed d.dungeon_progress
        → Completed d'.dungeon_progress
    Completed-moves u i target d balance d' t c =
        let paid =
          update_spend_points-keeps u (pos 1) t.loaded (some balance) t.pays.paid t.pays.payment in
        let before : Completed t.loaded.dungeon_progress = elim t.loads [
          | inl (_, same) ↦ rw same c
          | inr (_, _, inserted) ↦
              rw (insert_progress-keeps t.progress d t.loaded inserted).0
                (Completed-append d.dungeon_progress t.progress c)
        ] in
        rw (t.pays.stored, paid.0)
          (Completed-update (progress_is u i)
            (moved t.progress.position target (append_cell_dedup t.progress.visited target))
            t.loaded.dungeon_progress
            (moved-KeepsKey t.progress.position target
              (append_cell_dedup t.progress.visited target))
            (moved_done t.progress.position target (append_cell_dedup t.progress.visited target))
            before)

    Completed-Retreats :
        (u i : ℕ) (c : Cell) (d d' : Db)
        → Retreats u i d c d'
        → Completed d.dungeon_progress
        → Completed d'.dungeon_progress
    unfolding retreated
    Completed-Retreats u i c d d' r h = rw r.stored (
        Completed-update (progress_is u i) (retreated c) d.dungeon_progress (retreated-KeepsKey c)
          (λ p e. e) h)

    Completed-Defeats :
        (u i m : ℕ) (ds : List String) (d d' : Db)
        → Defeats env u i m d ds d'
        → Completed d.dungeon_progress
        → Completed d'.dungeon_progress
    unfolding with_defeated
    Completed-Defeats u i m ds d d' r h = rw r.stored (
        Completed-update (progress_is u i) (with_defeated ds) d.dungeon_progress
          (with_defeated-KeepsKey ds) (λ p e. e) h)

    Completed-Completes :
        (u i : ℕ) (row : DungeonRow) (d d' : Db)
        → Completes u i row d d'
        → Completed d.dungeon_progress
        → Completed d'.dungeon_progress
    unfolding with_completed
    Completed-Completes u i row d d' r h = rw r.stored (
        Completed-update (progress_is u i) with_completed d.dungeon_progress with_completed-KeepsKey
          (λ p e. refl) h)

    -- No call undoes a completion.
    Completed-call :
        (c : Call) (w : World)
        → Completed w.db.dungeon_progress
        → Completed (call c w).db.dungeon_progress
    Completed-call (moves u i c) w h = elim (move_dungeon-MoveOutcome env u i c w) [
      | inl (same, _) ↦ subst (λ (d : Db). Completed d.dungeon_progress) (sym same) h
      | inr (balance, t, _) ↦ Completed-moves u i c w.db balance _ t h
    ]
    Completed-call (retreats u i) w h = elim (retreat_dungeon-RetreatOutcome env u i w) [
      | inl (same, _) ↦ subst (λ (d : Db). Completed d.dungeon_progress) (sym same) h
      | inr (c, r, _) ↦ Completed-Retreats u i c w.db _ r h
    ]
    Completed-call (defeats u i m) w h = elim (complete_dungeon_monster-DefeatOutcome env u i m w) [
      | inl (same, _) ↦ subst (λ (d : Db). Completed d.dungeon_progress) (sym same) h
      | inr (ds, _, r) ↦ Completed-Defeats u i m ds w.db _ r h
    ]
    Completed-call (completes u i) w h = elim (complete_dungeon-CompleteOutcome env u i w) [
      | inl (same, _) ↦ subst (λ (d : Db). Completed d.dungeon_progress) (sym same) h
      | inr (row, _, _, r) ↦ Completed-Completes u i row w.db _ r h
    ]

    pub Completed-run :
        (cs : List Call) (w : World)
        → Completed w.db.dungeon_progress
        → Completed (run cs w).db.dungeon_progress
    Completed-run [] w h = h
    Completed-run (c ∷ cs) w h = Completed-run cs (call c w) (Completed-call c w h)

    -- CompleteDungeon that returns a reward leaves the dungeon completed.
    rewarded-Completed :
        (w : World) (xp : ℤ)
        → (complete_dungeon env user_id dungeon_id w).0 ≡ ok xp
        → Completed (complete_dungeon env user_id dungeon_id w).1.db.dungeon_progress
    unfolding with_completed
    rewarded-Completed w xp h = elim (complete_dungeon-CompleteOutcome env user_id dungeon_id w) [
      | inl (_, (e, r)) ↦ absurd (cc)
      | inr (row, _, _, c) ↦ (
        with_completed c.progress,
        rw c.stored (
            select-update (progress_is user_id dungeon_id) with_completed w.db.dungeon_progress
              c.progress c.saved
              (select-passes (progress_is user_id dungeon_id) w.db.dungeon_progress c.progress
                c.saved)),
        refl,
      )
    ]

    -- Once CompleteDungeon has returned a reward to a player for a dungeon, then after any sequence of
    -- calls, of this player or others, it returns no reward to the player for this dungeon again.
    pub reward_once :
        (w : World) (xp again : ℤ) (cs : List Call)
        → (complete_dungeon env user_id dungeon_id w).0 ≡ ok xp
        → (complete_dungeon env user_id dungeon_id
            (run cs (complete_dungeon env user_id dungeon_id w).1)).0
          ≢ ok again
    reward_once w xp again cs h k =
        let w1 = run cs (complete_dungeon env user_id dungeon_id w).1 in
        let (p, found, done) =
          Completed-run cs (complete_dungeon env user_id dungeon_id w).1
            (rewarded-Completed w xp h) in
        elim (complete_dungeon-CompleteOutcome env user_id dungeon_id w1) [
          | inl (_, (e, r)) ↦ absurd (cc)
          | inr (row, _, _, c) ↦ absurd (ground (arith, c.saved, c.first))
        ]
