-- ===== src/Expedition/Levels/Queries.antt =====
-- internal/repository/expedition.go: the methods that only read, and what TotalExpeditionStars adds up.
use magic_jigsaw.Expedition.Levels.Statements.{
  index_is, completed_by, level_indices, max_index, select_bonus_stars, select_level_progress,
  select_completed, select_level_image, select_level_images, select_max_index, select_levels,
}
use magic_jigsaw.Expedition.Levels.Store.{
  config_of, add_level_stars, total_expedition_stars, level_image_id, level_images,
  get_expedition_progress, expedition_bonus_stars, completed_expedition_levels, tiers_of,
  effective_tiers, level_configs, expedition_level_count,
}
use magic_jigsaw.Expedition.Tiers.{ExpeditionTier}
use magic_jigsaw.Prelude.{int_add, ℕ, ◌≡◌, inl, inr, some, ℤ, pos, arith, Option-cases}
use magic_jigsaw.Db.Table.{select, select_all}
use magic_jigsaw.Db.Schema.{Db, UserRow}
use magic_jigsaw.Db.Action.{Env, World, ok, failed, execute}
use magic_jigsaw.Points.Statements.{user_is}
use magic_jigsaw.Db.Reads.{Reads, Reads-bind, Reads-execute, Reads-pure, Reads-or_raise}

module _ (env : Env) where
  pub expedition_level_count-Reads : Reads (expedition_level_count env)
  unfolding expedition_level_count select_max_index
  expedition_level_count-Reads =
      Reads-execute env select_max_index (record { same = λ d d' a h. ground arith })

  pub level_configs-Reads : Reads (level_configs env)
  unfolding level_configs select_levels
  level_configs-Reads =
      Reads-bind (execute env select_levels) _
        (Reads-execute env select_levels (record { same = λ d d' a h. ground arith }))
        (λ levels. Reads-pure _)

  pub effective_tiers-Reads : Reads (effective_tiers env)
  unfolding effective_tiers
  effective_tiers-Reads =
      Reads-bind (expedition_level_count env) _ expedition_level_count-Reads
        (λ count. Reads-bind (level_configs env) _ level_configs-Reads (λ cfgs. Reads-pure _))

  pub completed_expedition_levels-Reads :
      (user_id : ℕ) → Reads (completed_expedition_levels env user_id)
  unfolding completed_expedition_levels select_completed
  completed_expedition_levels-Reads user_id =
      Reads-execute env (select_completed user_id) (record { same = λ d d' a h. ground arith })

  pub expedition_bonus_stars-Reads : (user_id : ℕ) → Reads (expedition_bonus_stars env user_id)
  unfolding expedition_bonus_stars select_bonus_stars
  expedition_bonus_stars-Reads user_id =
      Reads-bind (execute env (select_bonus_stars user_id)) _
        (Reads-execute env (select_bonus_stars user_id)
          (record { same = λ d d' a h. ground arith }))
        (λ row. Reads-or_raise row failed)

  pub total_expedition_stars-Reads : (user_id : ℕ) → Reads (total_expedition_stars env user_id)
  unfolding total_expedition_stars
  total_expedition_stars-Reads user_id =
      Reads-bind (completed_expedition_levels env user_id) _
        (completed_expedition_levels-Reads user_id)
        (λ completed. Reads-bind (effective_tiers env) _ effective_tiers-Reads (λ tiers.
          Reads-bind (expedition_bonus_stars env user_id) _ (expedition_bonus_stars-Reads user_id)
            (λ bonus. Reads-pure _)))

  pub level_images-Reads : Reads (level_images env)
  unfolding level_images select_level_images
  level_images-Reads =
      Reads-bind (execute env select_level_images) _
        (Reads-execute env select_level_images (record { same = λ d d' a h. ground arith }))
        (λ images. Reads-pure _)

  pub level_image_id-Reads : (level : ℕ) → Reads (level_image_id env level)
  unfolding level_image_id select_level_image
  level_image_id-Reads level =
      Reads-bind (execute env (select_level_image level)) _
        (Reads-execute env (select_level_image level) (record { same = λ d d' a h. ground arith }))
        (λ row. Reads-or_raise row failed)

  pub get_expedition_progress-Reads : (user_id : ℕ) → Reads (get_expedition_progress env user_id)
  unfolding get_expedition_progress select_level_progress
  get_expedition_progress-Reads user_id =
      Reads-bind (execute env (select_level_progress user_id)) _
        (Reads-execute env (select_level_progress user_id)
          (record { same = λ d d' a h. ground arith }))
        (λ rows. Reads-pure _)

-- The tiers of the levels of a table.
abbrev pub table_tiers : Db → ℕ → ExpeditionTier
table_tiers d =
    tiers_of (max_index d.expedition_levels)
      (λ i. config_of (select (index_is i) d.expedition_levels))

pub effective_tiers_lem :
    (env : Env) (w : World) (tiers : ℕ → ExpeditionTier)
    → (effective_tiers env w).0 ≡ ok tiers
    → table_tiers w.db ≡ tiers
unfolding effective_tiers expedition_level_count level_configs execute select_max_index
    select_levels
effective_tiers_lem env w tiers h = ground arith

-- What a user holds: the stars of the completed levels, and the bonus stars.
pub record Holds (user_id : ℕ) (d : Db) (total : ℤ) : Type 0 where
  pub user : UserRow
  pub is_user : select (user_is user_id) d.users ≡ some user
  pub sum :
      total
      ≡ int_add
          (add_level_stars
            (table_tiers d)
            (pos 0)
            (level_indices (select_all (completed_by user_id) d.expedition_progress)))
          user.expedition_bonus_stars

-- TotalExpeditionStars returns what the user holds.
pub total_expedition_stars_lem :
    (env : Env) (user_id : ℕ) (w : World) (total : ℤ)
    → (total_expedition_stars env user_id w).0 ≡ ok total
    → Holds user_id w.db total
unfolding total_expedition_stars completed_expedition_levels select_completed execute
    expedition_bonus_stars select_bonus_stars effective_tiers expedition_level_count level_configs
    select_max_index select_levels
total_expedition_stars_lem env user_id w total h =
    elim (Option-cases (select (user_is user_id) w.db.users)) [
      | inl n ↦ absurd (ground arith)
      | inr (u, n) ↦ record { user = u; is_user = n; sum = ground arith }
    ]
