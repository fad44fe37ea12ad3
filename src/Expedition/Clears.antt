-- ===== src/Expedition/Clears.antt =====
-- A level is completed once by a player, whatever calls follow.
use magic_jigsaw.Prelude.{
  Option-cases, ℕ, ◌≡◌, ◌≢◌, inl, inr, some, List, [], ◌∷◌, Bool, true, ℤ, refl, arith, Bool-cases,
  subst, ◌∙◌,
}
use magic_jigsaw.Db.Table.{Once, exists}
use magic_jigsaw.Db.Schema.{Db}
use magic_jigsaw.Db.Action.{ok, Statement, execute, Env, World}
use magic_jigsaw.Expedition.Play.{
  level_is, restarts, started, in_play, cleared, lost, upsert_started, update_cleared, update_lost,
  start_expedition_level, complete_expedition_level, fail_expedition_level,
}
use magic_jigsaw.Db.Writes.{exists-update}
use magic_jigsaw.Expedition.Rows.{
  Cleared, Cleared-update, Cleared-fresh, restarts-IsCleared, in_play-IsCleared, clear_all,
  in_play_there, rows_done, none_in_play,
}

-- A call of a method, by a user, for a level.
pub data LevelCall : Type 0 where
  starts : ℕ → ℤ → LevelCall
  clears : ℕ → ℤ → ℤ → ℤ → LevelCall
  loses : ℕ → ℤ → ℤ → LevelCall

module _ (env : Env) where
  abbrev pub level_call : LevelCall → World → World
  level_call (starts u l) w = (start_expedition_level env u l w).1
  level_call (clears u l e c) w = (complete_expedition_level env u l e c w).1
  level_call (loses u l c) w = (fail_expedition_level env u l c w).1

  abbrev pub play : List LevelCall → World → World
  play [] w = w
  play (c ∷ cs) w = play cs (level_call c w)

  module _ (user_id : ℕ) (level : ℤ) where
    upsert_started-Cleared :
        (u : ℕ) (l : ℤ) (d d' : Db)
        → upsert_started u l d ≡ some (tt, d')
        → Cleared user_id level d.expedition_progress
        → Cleared user_id level d'.expedition_progress
    unfolding upsert_started
    upsert_started-Cleared u l d d' n c =
        elim (Bool-cases (exists (level_is u l) d.expedition_progress)) [
          | inl old ↦ subst (Cleared user_id level) (ground arith) (
              Cleared-update user_id level (restarts u l) started d.expedition_progress (λ x. refl)
                (restarts-IsCleared user_id level u l) c)
          | inr new ↦
              subst (Cleared user_id level) (ground arith) (Cleared-fresh user_id level u l d new c)
        ]

    update_cleared-Cleared :
        (u : ℕ) (l e k : ℤ) (d : Db) (b : Bool) (d' : Db)
        → update_cleared u l e k d ≡ some (b, d')
        → Cleared user_id level d.expedition_progress
        → Cleared user_id level d'.expedition_progress
    unfolding update_cleared
    update_cleared-Cleared u l e k d b d' n c = subst (Cleared user_id level) (ground arith) (
        Cleared-update user_id level (in_play u l) (cleared e k) d.expedition_progress (λ x. refl)
          (λ x q p h. refl) c)

    update_lost-Cleared :
        (u : ℕ) (l k : ℤ) (d d' : Db)
        → update_lost u l k d ≡ some (tt, d')
        → Cleared user_id level d.expedition_progress
        → Cleared user_id level d'.expedition_progress
    unfolding update_lost
    update_lost-Cleared u l k d d' n c = subst (Cleared user_id level) (ground arith) (
        Cleared-update user_id level (in_play u l) (lost k) d.expedition_progress (λ x. refl)
          (λ x q p h. absurd (in_play-IsCleared user_id level u l x q p h)) c)

    -- A statement that keeps the completed level keeps it when it is run, also when it fails.
    execute-Cleared :
        {A : Type 0} (s : Statement A) (w : World)
        → ((a : A) (d : Db) → s w.db ≡ some (a, d) → Cleared user_id level d.expedition_progress)
        → Cleared user_id level w.db.expedition_progress
        → Cleared user_id level (execute env s w).1.db.expedition_progress
    unfolding execute
    execute-Cleared s w k c = elim (Bool-cases (env.fails w.clock)) [
      | inl f ↦ rw (execute, f) c
      | inr f ↦ elim (Option-cases (s w.db)) [
        | inl n ↦ rw (execute, f, n) c
        | inr ((a, d), n) ↦ rw (execute, f, n) (k a d n)
      ]
    ]

    level_call-Cleared :
        (q : LevelCall) (w : World)
        → Cleared user_id level w.db.expedition_progress
        → Cleared user_id level (level_call q w).db.expedition_progress
    unfolding start_expedition_level complete_expedition_level fail_expedition_level
    level_call-Cleared (starts u l) w c =
        execute-Cleared (upsert_started u l) w (λ a d n. upsert_started-Cleared u l w.db d n c) c
    level_call-Cleared (clears u l e k) w c =
        execute-Cleared (update_cleared u l e k) w
          (λ a d n. update_cleared-Cleared u l e k w.db a d n c) c
    level_call-Cleared (loses u l k) w c =
        execute-Cleared (update_lost u l k) w (λ a d n. update_lost-Cleared u l k w.db d n c) c

    play-Cleared :
        (cs : List LevelCall) (w : World)
        → Cleared user_id level w.db.expedition_progress
        → Cleared user_id level (play cs w).db.expedition_progress
    play-Cleared [] w c = c
    play-Cleared (q ∷ cs) w c = play-Cleared cs (level_call q w) (level_call-Cleared q w c)

    no_answer :
        (elapsed correct : ℤ) (w : World)
        → Cleared user_id level w.db.expedition_progress
        → (complete_expedition_level env user_id level elapsed correct w).0 ≢ ok true
    unfolding complete_expedition_level execute update_cleared
    no_answer elapsed correct w c h =
        ground (arith, none_in_play user_id level elapsed correct w.db.expedition_progress c.each)

    complete-Cleared :
        (w : World) (elapsed correct : ℤ)
        → Once (level_is user_id level) w.db.expedition_progress
        → (complete_expedition_level env user_id level elapsed correct w).0 ≡ ok true
        → Cleared user_id level
            (complete_expedition_level env user_id level elapsed correct w).1.db.expedition_progress
    unfolding complete_expedition_level execute update_cleared
    complete-Cleared w elapsed correct once h =
        let ps = w.db.expedition_progress in
        let some_row : exists (in_play user_id level) ps ≡ true = ground arith in
        let c : Cleared user_id level (clear_all user_id level elapsed correct ps) = record {
          there =
              exists-update (level_is user_id level) (in_play user_id level)
                (cleared elapsed correct) ps (λ x. refl)
              ∙ in_play_there user_id level elapsed correct ps some_row;
          each = rows_done user_id level elapsed correct ps once some_row;
        } in
        subst (Cleared user_id level) (ground arith) c

    -- Once CompleteExpeditionLevel has answered a player that this call completed the level, whose
    -- progress has one row at most for the two, then after any sequence of StartExpeditionLevel,
    -- CompleteExpeditionLevel and FailExpeditionLevel, of this player or others, however their
    -- statements go, it does not answer so to the player for this level again.
    pub no_second_clear :
        (w : World) (elapsed correct elapsed' correct' : ℤ) (cs : List LevelCall)
        → Once (level_is user_id level) w.db.expedition_progress
        → (complete_expedition_level env user_id level elapsed correct w).0 ≡ ok true
        → (complete_expedition_level env user_id level elapsed' correct'
            (play cs (complete_expedition_level env user_id level elapsed correct w).1)).0
          ≢ ok true
    no_second_clear w elapsed correct elapsed' correct' cs once h =
        let w1 = (complete_expedition_level env user_id level elapsed correct w).1 in
        no_answer elapsed' correct' (play cs w1)
          (play-Cleared cs w1 (complete-Cleared w elapsed correct once h))
