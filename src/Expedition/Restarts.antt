-- ===== src/Expedition/Restarts.antt =====
-- internal/repository/expedition.go: what StartExpeditionLevel does to the user's row of a level.
use magic_jigsaw.Db.Writes.{Changed}
use magic_jigsaw.Expedition.Play.{restarts, level_is, started, has_status, upsert_started}
use magic_jigsaw.Prelude.{
  [], ◌∷◌, ◌++◌, eq_iff, ◌≢◌, Bool-cases, List, ℕ, ◌≡◌, ◌⊎◌, inl, inr, refl, subst, true, false,
  some, ℤ, pos, arith,
}
use magic_jigsaw.Db.Table.{update, exists}
use magic_jigsaw.Db.Schema.{LevelProgressRow, Db}

-- A row of the level stays when it is completed, and else is in progress, and the same otherwise.
abbrev pub Restarts : LevelProgressRow → LevelProgressRow → Type 0
Restarts p p' =
    ((p.status ≡ "completed") × (p' ≡ p))
    ⊎ ((p.status ≢ "completed")
        × (p'.status ≡ "in_progress")
        × (p ≡ record p' { status = p.status }))

-- The user's row of the level is restarted, or there was none and a new one is in progress.
abbrev pub InProgress : ℕ → ℕ → List LevelProgressRow → List LevelProgressRow → Type 0
InProgress user_id level ps ps' =
    ((exists (level_is user_id (pos level)) ps ≡ true)
      × Changed (level_is user_id (pos level)) Restarts ps ps')
    ⊎ ((exists (level_is user_id (pos level)) ps ≡ false)
        × (ps'
            ≡ ps
              ++ record {
                user_id = user_id;
                level_index = pos level;
                status = "in_progress";
                elapsed_seconds = pos 0;
                correct_pieces = pos 0;
              }
                ∷ []))

Restarts-started :
    (p : LevelProgressRow) → has_status "completed" p ≡ false → Restarts p (started p)
Restarts-started p h =
    inr ((λ e. absurd (ground (arith, (eq_iff p.status "completed").1 e, h))), refl, refl)

restarts-Changed :
    (user_id : ℕ) (level : ℤ) (ps : List LevelProgressRow)
    → Changed (level_is user_id level) Restarts ps (update (restarts user_id level) started ps)
restarts-Changed user_id level [] = tt
restarts-Changed user_id level (p ∷ ps) = (
  elim (Bool-cases (level_is user_id level p)) [
    | inr f ↦ inr (f, ground (arith, f))
    | inl t ↦ elim (Bool-cases (has_status "completed" p)) [
      | inl c ↦ inl (t, inl ((eq_iff p.status "completed").0 c, ground (arith, t, c)))
      | inr c ↦ inl (t, subst (Restarts p) (ground (arith, t, c)) (Restarts-started p c))
    ]
  ],
  restarts-Changed user_id level ps,
)

pub upsert_started-InProgress :
    (user_id level : ℕ) (d d' : Db)
    → upsert_started user_id (pos level) d ≡ some (tt, d')
    → InProgress user_id level d.expedition_progress d'.expedition_progress
      × (d' ≡ record d { expedition_progress = d'.expedition_progress })
unfolding upsert_started
upsert_started-InProgress user_id level d d' h =
    elim (Bool-cases (exists (level_is user_id (pos level)) d.expedition_progress)) [
      | inl t ↦ (
        inl (
          t,
          subst (Changed (level_is user_id (pos level)) Restarts d.expedition_progress)
              (ground arith) (restarts-Changed user_id (pos level) d.expedition_progress),
        ),
        ground arith,
      )
      | inr f ↦ (inr (f, ground arith), ground arith)
    ]
