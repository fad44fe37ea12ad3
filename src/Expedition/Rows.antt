-- ===== src/Expedition/Rows.antt =====
-- Rows of expedition_progress under the changes that the statements make to them.
use magic_jigsaw.Prelude.{
  if◌then◌else◌, none, ◌⊎◌, int_eq-eq, ℕ, ◌≡◌, ◌≢◌, inl, inr, List, [], ◌∷◌, ◌++◌, Bool, true,
  false, str_eq, eq_iff, ℤ, refl, arith, Bool-cases, subst, ◌∙◌, All,
}
use magic_jigsaw.Lists.{All-append}
use magic_jigsaw.Db.Writes.{exists-update}
use magic_jigsaw.Db.Table.{select, Once, update, exists, All-update}
use magic_jigsaw.Db.Schema.{Db, LevelProgressRow}
use magic_jigsaw.Expedition.Play.{level_is, restarts, started, fresh_level, in_play, cleared}

exists-left :
    (p : LevelProgressRow → Bool) (ps : List LevelProgressRow) (x : LevelProgressRow)
    → exists p ps ≡ true
    → exists p (ps ++ x ∷ []) ≡ true
exists-left p [] x h = absurd (ground arith)
exists-left p (y ∷ ps) x h = ground (arith, exists-left p ps x)

module _ (user_id : ℕ) (level : ℤ) where
  -- A row of this player and level is a completed one.
  abbrev pub IsCleared : LevelProgressRow → Type 0
  IsCleared p = level_is user_id level p ≡ true → p.status ≡ "completed"

  -- The player has completed the level.
  pub record Cleared (ps : List LevelProgressRow) : Type 0 where
    pub there : exists (level_is user_id level) ps ≡ true
    pub each : All IsCleared ps

  pub Cleared-update :
      (q : LevelProgressRow → Bool) (f : LevelProgressRow → LevelProgressRow)
      (ps : List LevelProgressRow)
      → ((x : LevelProgressRow) → level_is user_id level (f x) ≡ level_is user_id level x)
      → ((x : LevelProgressRow) → q x ≡ true → IsCleared x → IsCleared (f x))
      → Cleared ps
      → Cleared (update q f ps)
  Cleared-update q f ps k h c = record {
    there = exists-update (level_is user_id level) q f ps k ∙ c.there;
    each = All-update IsCleared q f ps h c.each;
  }

  same_key :
      (u : ℕ) (l : ℤ)
      → level_is user_id level (fresh_level u l) ≡ true
      → (u ≡ user_id) × (l ≡ level)
  same_key u l h = (ground arith, int_eq-eq l level (ground arith))

  not_there :
      (u : ℕ) (l : ℤ) (d : Db)
      → exists (level_is u l) d.expedition_progress ≡ false
      → (u ≡ user_id) × (l ≡ level)
      → exists (level_is user_id level) d.expedition_progress ≢ true
  not_there u l d new (eu, el) there =
      let none_yet =
        subst (λ k. exists (level_is user_id k) d.expedition_progress ≡ false) el
          (subst (λ v. exists (level_is v l) d.expedition_progress ≡ false) eu new) in
      absurd (ground (arith, none_yet, there))

  pub Cleared-fresh :
      (u : ℕ) (l : ℤ) (d : Db)
      → exists (level_is u l) d.expedition_progress ≡ false
      → Cleared d.expedition_progress
      → Cleared (d.expedition_progress ++ fresh_level u l ∷ [])
  Cleared-fresh u l d new c = record {
    there = exists-left (level_is user_id level) d.expedition_progress (fresh_level u l) c.there;
    each =
        All-append IsCleared d.expedition_progress (fresh_level u l) c.each
          (λ h. absurd (not_there u l d new (same_key u l h) c.there));
  }

  pub restarts-IsCleared :
      (u : ℕ) (l : ℤ) (x : LevelProgressRow)
      → restarts u l x ≡ true
      → IsCleared x
      → IsCleared (started x)
  restarts-IsCleared u l x q c h = ground (arith, c h, eq_iff x.status "completed")

  pub in_play-IsCleared :
      (u : ℕ) (l : ℤ) (x : LevelProgressRow)
      → in_play u l x ≡ true
      → IsCleared x
      → level_is user_id level x ≡ true
      → ⊥
  in_play-IsCleared u l x q c h =
      let playing : str_eq x.status "in_progress" ≡ true = ground arith in
      let never : str_eq "completed" "in_progress" ≡ true =
        subst (λ t. str_eq t "in_progress" ≡ true) (c h) playing in
      ground (arith, never)

module _ (user_id : ℕ) (level : ℤ) (elapsed correct : ℤ) where
  abbrev pub clear_all : List LevelProgressRow → List LevelProgressRow
  clear_all = update (in_play user_id level) (cleared elapsed correct)

  no_rows :
      (ps : List LevelProgressRow)
      → select (level_is user_id level) ps ≡ none
      → All (IsCleared user_id level) (clear_all ps)
  no_rows [] e = tt
  no_rows (x ∷ ps) e = (no_row, no_rows ps (ground arith))
    where
      no_row :
          IsCleared user_id level (if in_play user_id level x then cleared elapsed correct x else x)
      no_row h = absurd (ground arith)

  idle_key :
      (ps : List LevelProgressRow)
      → select (level_is user_id level) ps ≡ none
      → exists (in_play user_id level) ps ≡ false
  idle_key [] e = refl
  idle_key (x ∷ ps) e = ground (arith, idle_key ps)

  pub in_play_there :
      (ps : List LevelProgressRow)
      → exists (in_play user_id level) ps ≡ true
      → exists (level_is user_id level) ps ≡ true
  in_play_there [] h = absurd (ground arith)
  in_play_there (x ∷ ps) h = ground (arith, in_play_there ps)

  idle_row :
      (x : LevelProgressRow) (ps : List LevelProgressRow)
      → (level_is user_id level x ≡ false) ⊎ (select (level_is user_id level) ps ≡ none)
      → exists (in_play user_id level) (x ∷ ps) ≡ true
      → in_play user_id level x ≡ false
      → level_is user_id level x ≢ true
  idle_row x ps (inl f) h t k = absurd (cc)
  idle_row x ps (inr n) h t k = ground (arith, idle_key ps n, h, t)

  -- The only row of the player and the level is completed.
  pub rows_done :
      (ps : List LevelProgressRow)
      → Once (level_is user_id level) ps
      → exists (in_play user_id level) ps ≡ true
      → All (IsCleared user_id level) (clear_all ps)
  rows_done [] o h = tt
  rows_done (x ∷ ps) o h = elim (Bool-cases (in_play user_id level x)) [
    | inl t ↦ (rw t (λ k. refl), no_rows ps (only o.0 (ground arith)))
    | inr t ↦ (rw t (λ k. absurd (idle_row x ps o.0 h t k)), rows_done ps o.1 (ground arith))
  ]
    where
      only :
          (level_is user_id level x ≡ false) ⊎ (select (level_is user_id level) ps ≡ none)
          → level_is user_id level x ≡ true
          → select (level_is user_id level) ps ≡ none
      only (inl f) k = absurd (cc)
      only (inr n) k = n

  pub none_in_play :
      (ps : List LevelProgressRow)
      → All (IsCleared user_id level) ps
      → exists (in_play user_id level) ps ≡ false
  none_in_play [] c = refl
  none_in_play (x ∷ ps) c = elim (Bool-cases (in_play user_id level x)) [
    | inl t ↦ absurd (in_play-IsCleared user_id level user_id level x t c.0 (ground arith))
    | inr t ↦ ground (arith, t, none_in_play ps c.1)
  ]
