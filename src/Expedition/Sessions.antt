-- ===== src/Expedition/Sessions.antt =====
-- internal/api/expedition.go: what handleStartExpedition and handleCompleteExpedition may do to the
-- tables, and when.
use magic_jigsaw.Expedition.Restarts.{InProgress, upsert_started-InProgress}
use magic_jigsaw.Expedition.Tiers.{ExpeditionTier}
use magic_jigsaw.Expedition.Campaign.{is_locked}
use magic_jigsaw.Expedition.Play.{start_expedition_level, upsert_started}
use magic_jigsaw.Expedition.Levels.Queries.{
  total_expedition_stars_lem, effective_tiers_lem, level_image_id-Reads,
  expedition_level_count-Reads, effective_tiers-Reads, total_expedition_stars-Reads,
  get_expedition_progress-Reads, level_images-Reads, table_tiers, Holds,
}
use magic_jigsaw.Http.Leaves.{Leaves-respond, Leaves-calls, Leaves-bind, Leaves}
use magic_jigsaw.Expedition.Levels.Store.{
  effective_tiers, total_expedition_stars, get_expedition_progress, level_images,
  expedition_level_count, level_image_id,
}
use magic_jigsaw.Expedition.Levels.Statements.{
  select_max_index, select_level_image, index_is, max_index,
}
use magic_jigsaw.Expedition.Handlers.{
  handle_start_expedition, gated_with, gated, start_open, has_image, load_expedition_state,
}
use magic_jigsaw.Expedition.Levels.Handlers.{level_from_path}
use magic_jigsaw.Prelude.{
  ℕ, ◌≡◌, ◌≤◌, ◌⊎◌, inl, inr, refl, sym, ap, subst, ◌∙◌, true, false, not, Option, none, some, ℤ,
  pos, negsuc, arith, Option-cases,
}
use magic_jigsaw.Db.Table.{select}
use magic_jigsaw.Db.Schema.{LevelRow, Db}
use magic_jigsaw.Db.Action.{execute_ok, execute_err, Env, World, execute}
use magic_jigsaw.Http.Handler.{
  Answer, Handler, answered, unless_refused, attempt, calls, ◌>>=◌, bind_cases, calls_bind,
  unless_cases,
}

-- The level of the path is one of the campaign's, and the user may play it.
pub record Opens (user_id : ℕ) (path : Option ℤ) (level : ℕ) (d : Db) : Type 0 where
  pub path_is : path ≡ some (pos level)
  pub low : 1 ≤ level
  pub high : level ≤ max_index d.expedition_levels
  pub stars : ℤ
  pub holds : Holds user_id d stars
  pub unlocked : is_locked (table_tiers d) stars level ≡ false

-- The level has an image, and its row is in progress or stays completed; no other table changes.
pub record Starts (user_id : ℕ) (path : Option ℤ) (d d' : Db) : Type 0 where
  pub level : ℕ
  pub opens : Opens user_id path level d
  pub row : LevelRow
  pub is_row : select (index_is level) d.expedition_levels ≡ some row
  pub image : ℕ
  pub has : row.image_id ≡ some image
  pub done : upsert_started user_id (pos level) d ≡ some (tt, d')
  pub progress : InProgress user_id level d.expedition_progress d'.expedition_progress
  pub others : d' ≡ record d { expedition_progress = d'.expedition_progress }

module _ (env : Env) (user_id : ℕ) where
  pub load_expedition_state-Leaves : Leaves (load_expedition_state env user_id)
  unfolding load_expedition_state
  load_expedition_state-Leaves =
      Leaves-bind (calls (level_images env) 500 "internal") _
        (Leaves-calls (level_images env) 500 "internal" (level_images-Reads env))
        (λ images.
          Leaves-bind (calls (get_expedition_progress env user_id) 500 "internal") _
            (Leaves-calls (get_expedition_progress env user_id) 500 "internal"
              (get_expedition_progress-Reads env user_id))
            (λ progress.
              Leaves-bind (calls (total_expedition_stars env user_id) 500 "internal") _
                (Leaves-calls (total_expedition_stars env user_id) 500 "internal"
                  (total_expedition_stars-Reads env user_id))
                (λ total_stars.
                  Leaves-bind (calls (effective_tiers env) 500 "internal") _
                    (Leaves-calls (effective_tiers env) 500 "internal" (effective_tiers-Reads env))
                    (λ tiers.
                      Leaves-bind (calls (expedition_level_count env) 500 "internal") _
                        (Leaves-calls (expedition_level_count env) 500 "internal"
                          (expedition_level_count-Reads env))
                        (λ level_count. Leaves-respond _)))))

  path_range :
      (path : Option ℤ) (w : World)
      → let (r, w') = level_from_path env path w in
        (w'.db ≡ w.db)
        × ((k : ℕ)
            → r ≡ answered k
            → (path ≡ some (pos k)) × (1 ≤ k) × (k ≤ max_index w.db.expedition_levels))
  unfolding level_from_path expedition_level_count execute select_max_index
  path_range none w = (refl, λ k e. ground arith)
  path_range (some (negsuc i)) w = (refl, λ k e. ground arith)
  path_range (some (pos i)) w = (ground arith, λ k e. ground arith)

  image_found :
      (level : ℕ) (w : World)
      → has_image (level_image_id env level w).0 ≡ true
      → (row : LevelRow) × (select (index_is level) w.db.expedition_levels ≡ some row)
        × ((image : ℕ) × (row.image_id ≡ some image))
  unfolding level_image_id execute select_level_image
  image_found level w h = elim (Option-cases (select (index_is level) w.db.expedition_levels)) [
    | inl n ↦ absurd (ground arith)
    | inr (row, n) ↦ (
      row,
      n,
      elim (Option-cases row.image_id) [
        | inl m ↦ absurd (ground arith)
        | inr (image, m) ↦ (image, m)
      ],
    )
  ]

  module _ {A : Type 0} (path : Option ℤ) (w : World) (P : Answer A × World → Type 0)
      (k : ℕ → (ℕ → ExpeditionTier) → Handler A)
      (untouched : (x : Answer A × World) → x.1.db ≡ w.db → P x)
      (opened : (level : ℕ) (w1 : World)
        → w1.db ≡ w.db
        → Opens user_id path level w.db
        → P (k level (table_tiers w.db) w1)) where
    -- Behind the gate the level is open to the user, and no table has changed yet.
    pub gated_outcome : P ((level_from_path env path >>= λ level. gated env user_id k level) w)
    gated_outcome =
        let (same, is_level) = path_range path w in
        bind_cases P (level_from_path env path) (gated env user_id k) w (λ s c h. untouched _ same)
          (λ level h.
            let (is, low, high) = is_level level h in
            let w1 = (level_from_path env path w).1 in
            let stars = total_expedition_stars env user_id in
            let same1 : (stars w1).1.db ≡ w.db =
              (total_expedition_stars-Reads env user_id).at w1 ∙ same in
            calls_bind P stars 500 "internal" (gated_with env user_id k level) w1
              (λ e h1. untouched _ same1)
              (λ total h1.
                let w2 = (stars w1).1 in
                let same2 : (effective_tiers env w2).1.db ≡ w.db =
                  (effective_tiers-Reads env).at w2 ∙ same1 in
                calls_bind P (effective_tiers env) 500 "internal"
                  (λ tiers.
                    unless_refused (is_locked tiers total level) 403 "locked" (k level tiers))
                  w2 (λ e h2. untouched _ same2)
                  (λ tiers h2.
                    unless_cases P (is_locked tiers total level) 403 "locked" (k level tiers)
                      (effective_tiers env w2).1 (λ t. untouched _ same2)
                      (λ t.
                        let e : table_tiers w.db ≡ tiers =
                          ap table_tiers (sym same1) ∙ effective_tiers_lem env w2 tiers h2 in
                        subst (λ f. P (k level f (effective_tiers env w2).1)) e
                          (opened level (effective_tiers env w2).1 same2 (record {
                            path_is = is;
                            low = low;
                            high = high;
                            stars = total;
                            holds =
                                subst (λ d. Holds user_id d total) same
                                  (total_expedition_stars_lem env user_id w1 total h1);
                            unlocked = subst (λ f. is_locked f total level ≡ false) (sym e) t;
                          }))))))

  module _ (path : Option ℤ) (w : World) where
    abbrev StartsOrNot : {A : Type 0} → Answer A × World → Type 0
    StartsOrNot x = (x.1.db ≡ w.db) ⊎ Starts user_id path w.db x.1.db

    start_open_outcome :
        (level : ℕ) (w1 : World)
        → w1.db ≡ w.db
        → Opens user_id path level w.db
        → StartsOrNot (start_open env user_id level w1)
    unfolding start_expedition_level
    start_open_outcome level w1 same o =
        let m = attempt (level_image_id env level) in
        let w2 = (level_image_id env level w1).1 in
        let same2 : w2.db ≡ w.db = (level_image_id-Reads env level).at w1 ∙ same in
        let start = start_expedition_level env user_id (pos level) in
        let go = calls start 500 "internal" >>= λ _. load_expedition_state env user_id in
        unless_cases StartsOrNot (not (has_image (level_image_id env level w1).0)) 403 "no_image" go
          w2 (λ t. inl same2)
          (λ t.
            calls_bind StartsOrNot start 500 "internal" (λ _. load_expedition_state env user_id) w2
              (λ e h. inl (execute_err env (upsert_started user_id (pos level)) w2 e h ∙ same2))
              (λ a h.
                let (row, is_row, (image, has)) = image_found level w1 (ground arith) in
                let stored = (start w2).1 in
                let done : upsert_started user_id (pos level) w.db
                    ≡ some (tt, (load_expedition_state env user_id stored).1.db) =
                  ap (upsert_started user_id (pos level)) (sym same2)
                  ∙ execute_ok env (upsert_started user_id (pos level)) w2 a h
                  ∙ ap (λ d. some (tt, d)) (sym (load_expedition_state-Leaves.at stored)) in
                let effect =
                  upsert_started-InProgress user_id level w.db
                    (load_expedition_state env user_id stored).1.db done in
                inr (record {
                  level = level;
                  opens = o;
                  row = row;
                  is_row =
                      subst (λ (d : Db). select (index_is level) d.expedition_levels ≡ some row)
                        same is_row;
                  image = image;
                  has = has;
                  done = done;
                  progress = effect.0;
                  others = effect.1;
                })))

    -- However its statements go, handleStartExpedition changes no table, or the level of the path is
    -- one of the campaign's that is open to the user with the stars that the user holds, it has an image,
    -- and the user's row of the level, which is added if there was none, is in progress and the same
    -- otherwise, unless it was completed, in which case it stays as it was; no other row and no other table
    -- changes.
    pub handle_start_expedition_outcome : StartsOrNot (handle_start_expedition env user_id path w)
    unfolding handle_start_expedition
    handle_start_expedition_outcome =
        gated_outcome path w StartsOrNot (λ level tiers. start_open env user_id level)
          (λ x same. inl same) start_open_outcome
